-- ===== src/Context/Store/Interrupted.antt =====
-- `Create` of api/context/store/store.go when the write of `meta.json` fails.
use text.Mathlib.TextEquality.{eq_iff}
use compose_cli.Prelude.{
  String, ◌≡◌, ◌≢◌, refl, ◌∙◌, true, false, none, some, List, ==-false, arith,
}
use compose_cli.Prelude.GoMap.{lookup, insert, has, lookup-insert}
use compose_cli.Prelude.Results.{ok, err}
use compose_cli.Context.Metadata.{DockerContext}
use compose_cli.Context.Store.{
  not_found, already_exists, os_error, Root, Os, Externals, get, context_exists, new_context,
  write_meta, create_context, list_contexts,
}
use compose_cli.Context.Store.Laws.{quiet}
use compose_cli.Context.Store.Listing.{list_contexts-get}

-- The write fails and leaves no file; every other call succeeds.
abbrev pub full_disk : {E File : Type 0} → E → Os E File
full_disk e = record quiet { write = some (e, none) }

module _ {V D E File : Type 0} (ext : Externals V D E File) where
  interrupted :
      (root : Root File) (name type description : String) (value : D) (file : File) (e : E)
      → name ≢ "default"
      → has (ext.digest name) root ≡ false
      → ext.marshal (new_context name type description value) ≡ ok file
      → create_context ext (full_disk e) root name type description value ≡ (
        err (os_error e),
        insert
            (ext.digest name)
            (record { meta = none })
            (insert (ext.digest name) (record { meta = none }) root),
      )
  unfolding create_context context_exists write_meta
  interrupted root name type description value file e other absent encoded =
      ground (arith, ==-false name "default" other)

  empty_directory-answers :
      (root : Root File) (name type description : String) (value : D)
      → name ≢ "default"
      → lookup (ext.digest name) root ≡ some (record { meta = none })
      → (context_exists ext quiet root name ≡ true)
        × (get ext quiet root name ≡ err (not_found name))
        × (create_context ext quiet root name type description value
            ≡ (err (already_exists name), root))
  unfolding context_exists get create_context has
  empty_directory-answers root name type description value other found = (
    ground (arith, ==-false name "default" other),
    ground (arith, ==-false name "default" other),
    ground (arith, ==-false name "default" other),
  )

  not_listed :
      (missing : E) (root : Root File) (cs : List (DockerContext V D)) (name : String)
      → name ≢ "default"
      → context_exists ext quiet root name ≡ true
      → get ext quiet root name ≡ err (not_found name)
      → list_contexts ext missing quiet root ≢ ok cs
  not_listed missing root cs name other present unread listed =
      let (same_length, of_name) =
        list_contexts-get ext missing quiet root cs name listed other refl present in
      let (c, i, read, at) = of_name in absurd (ground (arith, unread, read))

  -- A failed write inside `Create` leaves a context that is half there: `ContextExists` says that
  -- it exists, `Get` that it is not found, `Create` of the same name fails as already existing and
  -- changes nothing, and `List` fails for the whole store. Conditions: the name is new and not the
  -- default one, and the failed write leaves no file.
  pub create_context-interrupted :
      (missing e : E) (root : Root File) (name type description : String) (value : D) (file : File)
      → name ≢ "default"
      → has (ext.digest name) root ≡ false
      → ext.marshal (new_context name type description value) ≡ ok file
      → (let after = (create_context ext (full_disk e) root name type description value).1 in
          (context_exists ext quiet after name ≡ true)
          × (get ext quiet after name ≡ err (not_found name))
          × (create_context ext quiet after name type description value
              ≡ (err (already_exists name), after))
          × ((cs : List (DockerContext V D)) → list_contexts ext missing quiet after ≢ ok cs))
  create_context-interrupted missing e root name type description value file other absent encoded =
      let after = (create_context ext (full_disk e) root name type description value).1 in
      let (present, unread, again) =
        empty_directory-answers after name type description value other (
          rw (interrupted root name type description value file e other absent encoded) (
            lookup-insert (ext.digest name) (ext.digest name) (record { meta = none })
              (insert (ext.digest name) (record { meta = none }) root)
            ∙ rw ((eq_iff (ext.digest name) (ext.digest name)).1 refl))) in
      (present, unread, again, λ cs. not_listed missing after cs name other present unread)
