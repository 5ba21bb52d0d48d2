-- ===== src/Manager/DomainLists/Importing.antt =====
-- domain_list_manager.cxx, `import`: which list each name is on afterwards.
use dbl_service.Prelude.{
  ℕ, String, ◌≡◌, refl, Bool, true, some, if◌then◌else◌, contains, lookup, map, ◌∙◌,
}
use dbl_service.Fallible.{ok, fold_each}
use dbl_service.Types.{Domain, DomainList}
use dbl_service.Storage.{Tables}
use dbl_service.Storage.Statements.{insert_list, set_mtime}
use dbl_service.Storage.Session.{healthy, statement, transaction}
use dbl_service.Storage.Effects.{put_domain, replace_each-healthy, lookup-put_each}
use dbl_service.Manager.DomainLists.{or_custom, or_blank, import_list}
use dbl_service.Manager.DomainLists.Creating.{
  created_id, create-healthy, insert_list-finds, domains-insert_list,
}

-- import() on a database that answers succeeds. Each name of the imported list is then on the list of the
-- imported list's name (CUSTOM if it has none), wherever it was before, a whitelist included; every other
-- name stays where it was.
pub import_list-moves :
    (now : ℕ) (l : DomainList) (custom : Bool) (t : Tables)
    → (t' : Tables) × (import_list now l custom (healthy t) ≡ (ok true, healthy t'))
      × ((m : String)
          → lookup m t'.domains ≡ (
              if contains m (map (λ d. d.name) l.domains)
              then some (created_id (or_custom l.name) t.lists)
              else lookup m t.domains))
unfolding import_list transaction statement
import_list-moves now l custom t =
    let n = or_custom l.name in
    let t₁ = insert_list n l.url (or_blank l.description) custom t in
    let i = created_id n t.lists in
    let t₂ = fold_each (λ (d : Domain). put_domain i d.name) l.domains t₁ in
    let finds = insert_list-finds n l.url (or_blank l.description) custom t in
    let made = create-healthy l.name l.url (or_blank l.description) custom t in
    let filled = replace_each-healthy i (λ (d : Domain). d.name) l.domains t₁ finds.1 in
    (
      set_mtime now i t₂,
      rw (made, filled) refl,
      λ m.
          unfold set_mtime in
          lookup-put_each i (λ (d : Domain). d.name) l.domains m t₁
          ∙ rw (domains-insert_list n l.url (or_blank l.description) custom t) refl,
    )
