-- ===== src/Service/Replies.antt =====
-- The shape of the server's replies.
use dbl_service.Prelude.{
  String, ◌≡◌, refl, Bool, true, false, Option, none, some, List, [], ◌∷◌, ◌∙◌, ◌⊎◌, inl, inr,
}
use dbl_service.Fallible.{
  runtime_error, operation_error, logic_error, null_pointer, Result, ok, err, Exec, pure, throw,
  handle, continue, ◌>>=◌,
}
use dbl_service.Json.{IsLawful}
use dbl_service.Service.{Env, Connection}
use dbl_service.Service.Dispatch.{
  read, process_request, failed_text, answer, answer_root, answer_parsed, append_texts, failure,
  with_details, report, success_with,
}

-- What an action returns, where it returns, meets the predicate.
record Yields {S A : Type 0} (P : A → Type 0) (m : Exec S A) : Type 0 where
  yields : (s : S) (a : A) → (m s).0 ≡ ok a → P a

module _ {S A B : Type 0} (P : B → Type 0) (f : A → Exec S B)
    (each : (a : A) → Yields P (f a)) where
  resumed : (r : Result A) (s : S) (b : B) → (continue r f s).0 ≡ ok b → P b
  resumed (ok a) s b e = (each a).yields s b e
  resumed (err x) s b e = absurd (cc e)

  Yields-bind : (m : Exec S A) → Yields P (m >>= f)
  unfolding ◌>>=◌
  Yields-bind m = record { yields = λ s b e. let (r, s') = m s in resumed r s' b e }

module _ (env : Env) (lawful : IsLawful env.json) where
  open env use {json}
  open json use {Value, member, flag, text, assign, is_object, object_value, array_value}

  -- An object that says whether the command succeeded.
  record IsReply (v : Value) : Type 0 where
    pub success : Bool
    pub says : member v "success" ≡ ok (flag success)

  success_with-IsReply : (d : Value) → IsReply (success_with env d)
  success_with-IsReply d =
      let first =
        lawful.assign-IsObject object_value "success" (flag true) lawful.object-IsObject in
      record {
        success = true;
        says =
            lawful.member-assign (assign object_value "success" (flag true)) "data" "success" d
              first
            ∙ lawful.member-assign object_value "success" "success" (flag true)
                lawful.object-IsObject;
      }

  failure-says : (m : String) → member (failure env m) "success" ≡ ok (flag false)
  failure-says m =
      let first =
        lawful.assign-IsObject object_value "success" (flag false) lawful.object-IsObject in
      lawful.member-assign (assign object_value "success" (flag false)) "error_message" "success"
        (text m) first
      ∙ lawful.member-assign object_value "success" "success" (flag false) lawful.object-IsObject

  failure-IsObject : (m : String) → is_object (failure env m) ≡ true
  failure-IsObject m =
      lawful.assign-IsObject _ "error_message" (text m)
        (lawful.assign-IsObject object_value "success" (flag false) lawful.object-IsObject)

  with_details-says :
      (es : List String) (m : String)
      → member (with_details env es (failure env m)) "success" ≡ ok (flag false)
  with_details-says [] m = failure-says m
  with_details-says (e ∷ es) m =
      lawful.member-assign (failure env m) "error_details" "success"
        (append_texts env (e ∷ es) array_value) (failure-IsObject m)
      ∙ failure-says m

  settled : (v : Value) → Yields {S = Connection} IsReply (pure (success_with env v))
  unfolding pure
  settled v = record {
    yields =
        λ s b e. let same : success_with env v ≡ b = cc e in rw⁻¹ same (success_with-IsReply v);
  }

  answer_root-Yields : (root : Value) → Yields IsReply (answer_root env root)
  answer_root-Yields root =
      Yields-bind _ _
        (λ x. Yields-bind _ _ (λ s. Yields-bind _ _ (λ d. Yields-bind _ _ (λ v. settled v) _) _) _)
        _

  answer_parsed-Yields :
      (request : String) (o : Option Value) → Yields IsReply (answer_parsed env request o)
  answer_parsed-Yields request none = record { yields = λ s b e. unfold throw in absurd (cc e) }
  answer_parsed-Yields request (some root) = answer_root-Yields root

  -- What process_request makes of a request, before it is printed.
  abbrev Answered : Result Value × Connection → Type 0
  Answered m =
      (m.0 ≡ err null_pointer)
      ⊎ (((e : String) × (m.0 ≡ err (logic_error e)))
          ⊎ ((v : Value) × (b : Bool) × (m.0 ≡ ok v) × (member v "success" ≡ ok (flag b))))

  reported :
      (r : Result Value) (c : Connection)
      → ((v : Value) → r ≡ ok v → IsReply v)
      → Answered (handle r (report env) c)
  unfolding pure throw
  reported (ok v) c each = let p = each v refl in inr (inr (v, p.success, refl, p.says))
  reported (err (runtime_error m)) c each = inr (inr (failure env m, false, refl, failure-says m))
  reported (err (operation_error m es)) c each =
      inr (inr (with_details env es (failure env m), false, refl, with_details-says es m))
  reported (err (logic_error m)) c each = inr (inl (m, refl))
  reported (err null_pointer) c each = inl refl

  answer-Answered : (request : String) (c : Connection) → Answered (answer env request c)
  unfolding answer
  answer-Answered request c =
      let (r, c') = answer_parsed env request (json.parse request) c in
      reported r c' ((answer_parsed-Yields request (json.parse request)).yields c)

  -- Every request, of any peer and whatever statements fail, is read to the end in one of three ways: the server
  -- reads through a null pointer; jsoncpp throws an exception that is no runtime_error, and the reply is that
  -- processing failed; or the reply is the text of an object with a flag "success".
  pub answer-replies :
      (request : String) (c : Connection)
      → ((read env request c).0 ≡ err null_pointer)
        ⊎ (((e : String) × ((answer env request c).0 ≡ err (logic_error e))
              × ((read env request c).0 ≡ ok (failed_text env e)))
            ⊎ ((v : Value) × (b : Bool) × ((read env request c).0 ≡ ok (json.print v))
                × (member v "success" ≡ ok (flag b))))
  unfolding read process_request ◌>>=◌ pure throw
  answer-replies request c = elim (answer-Answered request c) [
    | inl e ↦ inl (rw e refl)
    | inr o ↦ elim o [
      | inl (m, e) ↦ inr (inl (m, e, rw e refl))
      | inr (v, b, e, says) ↦ inr (inr (v, b, rw e refl, says))
    ]
  ]
