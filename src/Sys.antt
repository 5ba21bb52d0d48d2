-- ===== src/Sys.antt =====
-- src/dbl/sys/command.cxx: run_command(), which collects what a command prints. The process that popen() starts
-- is a parameter: what it prints, whether reading then fails in place of coming to the end, and the status that
-- pclose() gives; none if popen() fails. The text is a list of characters, of which some end a line and some are
-- NUL.
use dbl_service.Prelude.{
  ◌&&◌, ℕ, zero, suc, Bool, true, false, Option, none, some, List, [], ◌∷◌, ◌++◌, if◌then◌else◌,
  length,
}
use dbl_service.Prelude.Integers.{ℤ, negsuc}

-- What is not read yet, and feof().
pub record Stream (C : Type 0) : Type 0 where
  pub unread : List C
  pub is_at_end : Bool

pub record Pipe (C : Type 0) : Type 0 where
  pub output : List C
  pub read_fails : Bool
  pub status : ℤ

module _ {C : Type 0} (ends_line is_nul : C → Bool) where
  -- The characters that one fgets() takes, and the stream that it leaves.
  unfoldable pub take_line : ℕ → List C → List C × Stream C
  take_line zero cs = ([], record { unread = cs; is_at_end = false })
  take_line (suc n) [] = ([], record { unread = []; is_at_end = true })
  take_line (suc n) (c ∷ cs) =
      let (line, s) = take_line n cs in
      if ends_line c then (c ∷ [], record { unread = cs; is_at_end = false }) else (c ∷ line, s)

  -- NULL if nothing was taken
  abbrev pub buffer_of : List C → Option (List C)
  buffer_of [] = none
  buffer_of (c ∷ cs) = some (c ∷ cs)

  -- fgets(buf, size, ptr): one place of the buffer is for the NUL. A read that fails gives NULL, without feof().
  unfoldable pub fgets : Bool → ℕ → Stream C → Option (List C) × Stream C
  fgets fails zero s = (none, s)
  fgets fails (suc n) s =
      let (line, t) = take_line n s.unread in
      if fails && t.is_at_end
      then (none, record { unread = []; is_at_end = false })
      else (buffer_of line, t)

  -- The text that a buffer holds ends before its first NUL.
  unfoldable pub c_string : List C → List C
  c_string [] = []
  c_string (c ∷ cs) = let rest = c_string cs in if is_nul c then [] else c ∷ rest

  abbrev pub appended : List C → Option (List C) → List C
  appended result none = result
  appended result (some buf) = result ++ c_string buf

  -- while(!feof(ptr)); none if the fuel is used up
  unfoldable pub read_all : Bool → ℕ → Stream C → List C → Option (List C)
  read_all fails zero s result = if s.is_at_end then some result else none
  read_all fails (suc fuel) s result =
      let (buf, t) = fgets fails 128 s in
      let rest = read_all fails fuel t (appended result buf) in
      if s.is_at_end then some result else rest

  abbrev pub with_status : ℤ → Option (List C) → Option (ℤ × List C)
  with_status status none = none
  with_status status (some result) = some (status, result)

  -- The value that is returned, and the result; a round for each character, and one for the end, is enough.
  unfoldable pub run_command : Option (Pipe C) → List C → Option (ℤ × List C)
  run_command none result = some (negsuc 0, result)
  run_command (some p) result = with_status p.status (
      read_all p.read_fails (suc (length p.output))
        (record { unread = p.output; is_at_end = false }) [])

  module _ (n : ℕ) (cs : List C) where
    abbrev taken : List C × Stream C
    taken = take_line (suc n) cs
