-- ===== src/Tests/Client.antt =====
-- A client logs in to the sample server.
use dbl_service.Prelude.{String, ◌≡◌, refl, true, ◌==◌, if◌then◌else◌, Bool-cases, inl, inr, lookup}
use dbl_service.Fallible.{ok}
use dbl_service.Service.Dispatch.{read}
use dbl_service.Client.Login.{authenticate-healthy}
use dbl_service.Client.Login.Messages.{tools_for}
use dbl_service.Client.Session.{authenticate}
use dbl_service.Json.{IsLawful}
use dbl_service.Tests.Sample.{
  sample_env, sample_json, sample_tables, sample_connection, Tree, nothing, object, leaf, digit,
  truth, sequence, assign, is_object, member,
}

abbrev partial : String → Tree
partial s = nothing

assign-object :
    (o : Tree) (k : String) (v : Tree) → is_object o ≡ true → is_object (assign o k v) ≡ true
assign-object (object fs) k v e = refl
assign-object nothing k v e = refl
assign-object (leaf s) k v e = e
assign-object (digit n) k v e = e
assign-object (truth b) k v e = e
assign-object (sequence ts) k v e = e

read_back :
    (o : Tree) (k l : String) (v : Tree)
    → is_object o ≡ true
    → member (assign o k v) l ≡ (if k == l then ok v else member o l)
read_back (object fs) k l v e = elim (Bool-cases (k == l)) [ inl h ↦ rw h refl | inr h ↦ rw h refl ]
read_back nothing k l v e = absurd (cc e)
read_back (leaf s) k l v e = absurd (cc e)
read_back (digit n) k l v e = absurd (cc e)
read_back (truth b) k l v e = absurd (cc e)
read_back (sequence ts) k l v e = absurd (cc e)

pub sample_IsLawful : IsLawful sample_json
sample_IsLawful = record {
  object-IsObject = refl;
  assign-null = λ k v. refl;
  assign-IsObject = assign-object;
  member-object = λ k. refl;
  member-assign = read_back;
  as_string-text = λ s. refl;
  as_bool-flag = λ b. refl;
}

authenticate-healthy_example :
    authenticate
      (tools_for sample_env partial)
      (read sample_env)
      "aaaaaaaaaaaaaaaaaaaaaaaaaaaaaaa"
      (record { error = "old"; peer = sample_connection })
    ≡ (ok true, record { error = ""; peer = record sample_connection { is_authenticated = true } })
unfolding lookup
authenticate-healthy_example =
    authenticate-healthy sample_env partial sample_IsLawful "aaaaaaaaaaaaaaaaaaaaaaaaaaaaaaa" "old"
      sample_tables sample_connection refl refl (λ e. absurd (cc e)) refl
      (refl, (refl, (refl, (refl, (refl, tt)))))
