-- ===== src/Context/Store/Isolation.antt =====
-- api/context/store/store.go: an operation on one context leaves the others alone, and a context
-- that is removed is gone.
use compose_cli.Prelude.{
  String, ◌≡◌, ◌≢◌, refl, ◌∙◌, ap, true, false, none, some, ◌==◌, if◌then◌else◌, ==-false, arith,
}
use text.Mathlib.TextEquality.{eq_iff}
use compose_cli.Prelude.GoMap.{lookup, erase, has, lookup-insert, lookup-erase}
use compose_cli.Prelude.Results.{ok, err}
use compose_cli.Context.Metadata.{DockerContext}
use compose_cli.Context.Store.{
  not_found, Directory, Root, Os, Externals, lifted, read_file, meta_of, get, context_exists,
  write_meta, create_context, remove_context,
}
use compose_cli.Context.Store.Laws.{quiet}

module _ {V D E File : Type 0} (ext : Externals V D E File) where
  -- The digest tells names apart.
  abbrev pub IsCollisionFree : Type 0
  IsCollisionFree = (s t : String) → ext.digest s ≡ ext.digest t → s ≡ t

  digest_other : IsCollisionFree → (s t : String) → s ≢ t → (ext.digest s == ext.digest t) ≡ false
  digest_other injective s t other =
      ==-false (ext.digest s) (ext.digest t) (λ e. other (injective s t e))

  lookup-write_meta-other :
      (os : Os E File) (root : Root File) (dir other_dir : String) (meta : DockerContext V D)
      → (dir == other_dir) ≡ false
      → lookup other_dir (write_meta ext os root dir meta).1 ≡ lookup other_dir root
  unfolding write_meta
  lookup-write_meta-other os root dir other_dir meta apart =
      grind (arith, lookup-insert {V = Directory File} dir other_dir)

  lookup-create_context-other :
      (os : Os E File) (root : Root File) (name type description : String) (value : D)
      (other_dir : String)
      → (ext.digest name == other_dir) ≡ false
      → lookup other_dir (create_context ext os root name type description value).1
        ≡ lookup other_dir root
  unfolding create_context
  lookup-create_context-other os root name type description value other_dir apart = grind (
    arith,
    lookup-write_meta-other os,
    lookup-insert {V = Directory File} (ext.digest name) other_dir,
  )

  lookup-remove_context-other :
      (os : Os E File) (root left : Root File) (name other_dir : String)
      → os.remove_all ≡ none
      → (ext.digest name == other_dir) ≡ false
      → lookup other_dir (remove_context ext os root name left).1 ≡ lookup other_dir root
  unfolding remove_context
  lookup-remove_context-other os root left name other_dir whole apart =
      ground (arith, lookup-erase (ext.digest name) other_dir root)

  context_exists-lookup :
      (os : Os E File) (s t : Root File) (name : String)
      → lookup (ext.digest name) s ≡ lookup (ext.digest name) t
      → (get ext os s name ≡ get ext os t name)
        × (context_exists ext os s name ≡ context_exists ext os t name)
  unfolding get context_exists has
  context_exists-lookup os s t name same = (
    ap
        (λ o. if name == "default" then lifted ext.docker_default_context else (elim (meta_of o) [
          | none ↦ err (not_found name)
          | some file ↦ lifted (read_file ext os file)
        ]))
        same,
    ground (arith, same),
  )

  -- An operation on one name leaves the other names alone: `Get` and `ContextExists` answer for
  -- another name as they did before `Create` or `Remove`, whatever calls of the operating system
  -- fail. Conditions: digests tell names apart, and `RemoveAll` does not fail half way.
  pub create_context-isolated :
      (os os' : Os E File) (root left : Root File) (name t type description : String) (value : D)
      → IsCollisionFree
      → name ≢ t
      → os.remove_all ≡ none
      → (let created = (create_context ext os root name type description value).1 in
          let removed = (remove_context ext os root name left).1 in
          ((get ext os' created t ≡ get ext os' root t)
            × (context_exists ext os' created t ≡ context_exists ext os' root t))
          × ((get ext os' removed t ≡ get ext os' root t)
              × (context_exists ext os' removed t ≡ context_exists ext os' root t)))
  create_context-isolated os os' root left name t type description value injective other whole = (
    context_exists-lookup os' (create_context ext os root name type description value).1 root t
        (lookup-create_context-other os root name type description value (ext.digest t) apart),
    context_exists-lookup os' (remove_context ext os root name left).1 root t
        (lookup-remove_context-other os root left name (ext.digest t) whole apart),
  )
    where
      apart : (ext.digest name == ext.digest t) ≡ false
      apart = digest_other injective name t other

  remove_context-present :
      (root left : Root File) (name : String)
      → name ≢ "default"
      → context_exists ext quiet root name ≡ true
      → remove_context ext quiet root name left ≡ (ok tt, erase (ext.digest name) root)
  unfolding remove_context context_exists
  remove_context-present root left name other present =
      ground (arith, ==-false name "default" other)

  absent_answers :
      (root left : Root File) (name : String)
      → name ≢ "default"
      → lookup (ext.digest name) root ≡ none
      → (get ext quiet root name ≡ err (not_found name))
        × (context_exists ext quiet root name ≡ false)
        × (remove_context ext quiet root name left ≡ (err (not_found name), root))
  unfolding get context_exists remove_context has
  absent_answers root left name other absent = (
    ground (arith, ==-false name "default" other),
    ground (arith, ==-false name "default" other),
    ground (arith, ==-false name "default" other),
  )

  -- A context that exists is removed: `Remove` returns nil, `Get` then says that there is no such
  -- context, `ContextExists` that there is none, and a second `Remove` that there is none and
  -- changes nothing. Conditions: the name is not the default one, and no call of the operating
  -- system fails.
  pub remove_context-gone :
      (root left : Root File) (name : String)
      → name ≢ "default"
      → context_exists ext quiet root name ≡ true
      → (let r = remove_context ext quiet root name left in
          (r.0 ≡ ok tt)
          × (get ext quiet r.1 name ≡ err (not_found name))
          × (context_exists ext quiet r.1 name ≡ false)
          × (remove_context ext quiet r.1 name left ≡ (err (not_found name), r.1)))
  remove_context-gone root left name other present =
      rw (remove_context-present root left name other present) (refl, gone.0, gone.1, gone.2)
    where
      gone :
          (get ext quiet (erase (ext.digest name) root) name ≡ err (not_found name))
          × (context_exists ext quiet (erase (ext.digest name) root) name ≡ false)
          × (remove_context ext quiet (erase (ext.digest name) root) name left
              ≡ (err (not_found name), erase (ext.digest name) root))
      gone = absent_answers (erase (ext.digest name) root) left name other (
          lookup-erase (ext.digest name) (ext.digest name) root
          ∙ rw ((eq_iff (ext.digest name) (ext.digest name)).1 refl))
