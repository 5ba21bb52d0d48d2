-- ===== src/Json/Objects.antt =====
-- Objects that are built member by member, as to_json() builds them, and how their members are read.
use dbl_service.Prelude.{
  String, ◌≡◌, refl, true, Option, none, some, [], ◌∷◌, Assoc, lookup, ◌==◌, Bool-cases, inl, inr,
}
use dbl_service.Fallible.{ok}
use dbl_service.Json.{Json, IsLawful}

module _ (j : Json) where
  -- The last member first.
  abbrev pub build : Assoc j.Value → j.Value
  build [] = j.object_value
  build ((k, v) ∷ m) = j.assign (build m) k v

  abbrev pub or_null : Option j.Value → j.Value
  or_null none = j.null_value
  or_null (some v) = v

  module _ (lawful : IsLawful j) where
    pub build-IsObject : (m : Assoc j.Value) → j.is_object (build m) ≡ true
    build-IsObject [] = lawful.object-IsObject
    build-IsObject ((k, v) ∷ m) = lawful.assign-IsObject (build m) k v (build-IsObject m)

    pub member-build :
        (m : Assoc j.Value) (l : String) → j.member (build m) l ≡ ok (or_null (lookup l m))
    unfolding lookup
    member-build [] l = lawful.member-object l
    member-build ((k, v) ∷ m) l = elim (Bool-cases (k == l)) [
      | inl e ↦ rw (lawful.member-assign (build m) k l v (build-IsObject m), e) refl
      | inr e ↦ rw (lawful.member-assign (build m) k l v (build-IsObject m), e) (member-build m l)
    ]
