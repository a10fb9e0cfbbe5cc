-- ===== src/Context/Store/Listing.antt =====
-- `List` of api/context/store/store.go against `Get`.
use mathlib.Core.Path.{subst}
use compose_cli.Prelude.{
  ℕ, zero, suc, String, ◌≡◌, ◌≢◌, refl, sym, ap, true, false, Bool-cases, none, some, Option-cases,
  List, [], ◌∷◌, ◌++◌, length, length-append, get_elem?, ◌==◌, ==-false, arith, inl, inr,
}
use compose_cli.Prelude.GoMap.{GoMap, lookup, has}
use compose_cli.Prelude.Results.{Result, ok, err, ◌>>=◌, >>=-eq-ok}
use compose_cli.Context.Metadata.{DockerContext}
use compose_cli.Context.Store.{
  Directory, Root, Os, Externals, get, context_exists, read_all, list_contexts, read_file,
}

module _ {A : Type 0} where
  not_found_in_nil : (dir : String) {d : A} → lookup dir [] ≡ some d → ⊥
  unfolding lookup
  not_found_in_nil dir found = ground arith

  pub lookup-has : (k : String) (m : GoMap A) → has k m ≡ true → (v : A) × (lookup k m ≡ some v)
  unfolding has
  lookup-has k m present = elim (Option-cases (lookup k m)) [
    | inl none_k ↦ absurd (ground arith)
    | inr (v, found) ↦ (v, found)
  ]

  found_first :
      (j dir : String) (b d : A) (root : GoMap A)
      → (j == dir) ≡ true
      → lookup dir ((j, b) ∷ root) ≡ some d
      → b ≡ d
  unfolding lookup
  found_first j dir b d root same found = ground arith

  found_later :
      (j dir : String) (b d : A) (root : GoMap A)
      → (j == dir) ≡ false
      → lookup dir ((j, b) ∷ root) ≡ some d
      → lookup dir root ≡ some d
  unfolding lookup
  found_later j dir b d root apart found = ground arith

module _ {V D E File : Type 0} (ext : Externals V D E File) where
  -- The file of a directory, read.
  abbrev read_entry : E → Os E File → Directory File → Result E (DockerContext V D)
  read_entry missing os d = elim d.meta [ none ↦ err missing | some file ↦ read_file ext os file ]

  read_all-cons :
      (missing : E) (os : Os E File) (root : Root File) (cs : List (DockerContext V D)) (j : String)
      (b : Directory File)
      → read_all ext missing os ((j, b) ∷ root) ≡ ok cs
      → (r : DockerContext V D) × (rest : List (DockerContext V D)) × (read_entry missing os b
          ≡ ok r)
        × (read_all ext missing os root ≡ ok rest)
        × (r ∷ rest ≡ cs)
  unfolding read_all
  read_all-cons missing os root cs j b listed =
      let (r, read, more) =
        >>=-eq-ok (read_entry missing os b)
          (λ r. do rest ← read_all ext missing os root; ok (r ∷ rest)) listed in
      let (rest, listed', e) =
        >>=-eq-ok (read_all ext missing os root) (λ rest. ok (r ∷ rest)) more in
      (r, rest, read, listed', cc)

  -- The context of a directory, in a list.
  abbrev IsAt : E → Os E File → Directory File → List (DockerContext V D) → Type 0
  IsAt missing os d cs =
      (c : DockerContext V D) × (i : ℕ) × (read_entry missing os d ≡ ok c)
      × (get_elem? cs i ≡ some c)

  read_all-IsAt :
      (missing : E) (os : Os E File) (root : Root File) (cs : List (DockerContext V D))
      (dir : String) (d : Directory File)
      → read_all ext missing os root ≡ ok cs
      → lookup dir root ≡ some d
      → IsAt missing os d cs
  read_all-IsAt missing os [] cs dir d listed found = absurd (not_found_in_nil dir found)
  read_all-IsAt missing os ((j, b) ∷ root) cs dir d listed found =
      let (r, rest, read, listed', e) = read_all-cons missing os root cs j b listed in
      elim (Bool-cases (j == dir)) [
        | inl same ↦ (
          r,
          0,
          subst (λ x. read_entry missing os x ≡ ok r) (found_first j dir b d root same found) read,
          rw (sym e) refl,
        )
        | inr apart ↦
            let (c, i, read_c, at) =
              read_all-IsAt missing os root rest dir d listed'
                (found_later j dir b d root apart found) in
            (c, suc i, read_c, rw (sym e) at)
      ]

  read_all-length :
      (missing : E) (os : Os E File) (root : Root File) (cs : List (DockerContext V D))
      → read_all ext missing os root ≡ ok cs
      → length cs ≡ length root
  unfolding read_all
  read_all-length missing os [] cs listed = sym (ap length nil)
    where
      nil : [] ≡ cs
      nil = cc
  read_all-length missing os ((j, b) ∷ root) cs listed =
      let (r, rest, read, listed', e) = read_all-cons missing os root cs j b listed in
      rw (sym e) (ap suc (read_all-length missing os root rest listed'))

  abbrev opened_by : Os E File → Root File → Result E (Root File)
  opened_by os root = elim os.read_dir [ some e ↦ err e | none ↦ ok root ]

  opened_by-root : (os : Os E File) (root c : Root File) → opened_by os root ≡ ok c → c ≡ root
  opened_by-root os root c opened = ground arith

  get-read_entry :
      (missing : E) (os : Os E File) (root : Root File) (name : String) (d : Directory File)
      (c : DockerContext V D)
      → name ≢ "default"
      → lookup (ext.digest name) root ≡ some d
      → read_entry missing os d ≡ ok c
      → get ext os root name ≡ ok c
  unfolding get
  get-read_entry missing os root name d c other found read =
      ground (arith, ==-false name "default" other)

  has-context_exists :
      (os : Os E File) (root : Root File) (name : String)
      → name ≢ "default"
      → os.stat ≡ none
      → context_exists ext os root name ≡ true
      → has (ext.digest name) root ≡ true
  unfolding context_exists
  has-context_exists os root name other stat present = ground (arith, ==-false name "default" other)

  get_elem?-append :
      {A : Type 0} (xs ys : List A) (i : ℕ) (a : A)
      → get_elem? xs i ≡ some a
      → get_elem? (xs ++ ys) i ≡ some a
  get_elem?-append [] ys i a at = absurd (ground arith)
  get_elem?-append (x ∷ xs) ys zero a at = at
  get_elem?-append (x ∷ xs) ys (suc i) a at = get_elem?-append xs ys i a at

  list_contexts-read :
      (missing : E) (os : Os E File) (root : Root File) (cs : List (DockerContext V D))
      → list_contexts ext missing os root ≡ ok cs
      → (result : List (DockerContext V D)) × (docker : DockerContext V D) × (read_all ext missing
            os root
          ≡ ok result)
        × (ext.docker_default_context ≡ ok docker)
        × (result ++ docker ∷ [] ≡ cs)
  unfolding list_contexts
  list_contexts-read missing os root cs listed =
      let (c, opened, rest) =
        >>=-eq-ok (opened_by os root)
          (λ c. do
            result ← read_all ext missing os c
            docker ← ext.docker_default_context
            ok (result ++ docker ∷ []))
          listed in
      let (result, read, rest') =
        >>=-eq-ok (read_all ext missing os c)
          (λ result. do docker ← ext.docker_default_context; ok (result ++ docker ∷ [])) rest in
      let (docker, default_ok, e) =
        >>=-eq-ok ext.docker_default_context (λ docker. ok (result ++ docker ∷ [])) rest' in
      (
        result,
        docker,
        subst (λ x. read_all ext missing os x ≡ ok result) (opened_by-root os root c opened) read,
        default_ok,
        cc,
      )

  pub list_contexts-get :
      (missing : E) (os : Os E File) (root : Root File) (cs : List (DockerContext V D))
      (name : String)
      → list_contexts ext missing os root ≡ ok cs
      → name ≢ "default"
      → os.stat ≡ none
      → context_exists ext os root name ≡ true
      → (length cs ≡ suc (length root))
        × ((c : DockerContext V D) × (i : ℕ) × (get ext os root name ≡ ok c)
            × (get_elem? cs i ≡ some c))
  list_contexts-get missing os root cs name listed other stat present =
      let (result, docker, read, default_ok, e) = list_contexts-read missing os root cs listed in
      let (d, found) =
        lookup-has (ext.digest name) root (has-context_exists os root name other stat present) in
      let (c, i, read_c, at) =
        read_all-IsAt missing os root result (ext.digest name) d read found in
      (
        rw (sym e, length-append result (docker ∷ []))
            (omega (arith, read_all-length missing os root result read)),
        (
          c,
          i,
          get-read_entry missing os root name d c other found read_c,
          rw (sym e) (get_elem?-append result (docker ∷ []) i c at),
        ),
      )
