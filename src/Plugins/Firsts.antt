-- ===== src/Plugins/Firsts.antt =====
-- Which Lua collectors of the system are kept, in CollectorsManager of src/collectors.cpp.
use watched_agent.Base.{
  Bool, false, List, [], ◌∷◌, ◌++◌, Option, none, some, if◌then◌else◌, Str, str_eq, str_eq_iff,
  codes, lookup, lookup-insert, first, ◌≡◌, refl, ◌∙◌, sym, ap, arith, Bool-cases, Option-cases,
  inl, inr,
}
use watched_agent.Text.{substr}
use watched_agent.Plugins.{
  Entry, is_visible, extension, stem, load_files, put_new, visit_system_lua, load_system_lua,
}

stem-some : (name : Str) → (s : Str) × (stem name ≡ some s)
unfolding stem substr
stem-some name = elim (Option-cases (stem name)) [
  | inl e ↦ absurd (ground (arith, e))
  | inr (s, e) ↦ (s, e)
]

-- The name of the collector that a file makes is `k`.
unfoldable pub is_stem : Str → Str → Bool
is_stem k file = elim (stem file) [ none ↦ false | some name ↦ str_eq name k ]

-- The collector that is there, or the first of the files of its name.
unfoldable pub kept : Str → Str → List (Str × Str) → List Str → Option Str
kept dir k known files = elim (lookup str_eq k known) [
  | some x ↦ some x
  | none ↦ elim (first (is_stem k) files) [ none ↦ none | some file ↦ some (dir ++ (b'/' ∷ file)) ]
]

lookup-put_new :
    (k name file : Str) (known : List (Str × Str))
    → lookup str_eq k (put_new name file known) ≡ elim (lookup str_eq k known) [
      | some x ↦ some x
      | none ↦ if str_eq name k then some file else none
    ]
unfolding put_new
lookup-put_new k name file known =
    let at = lookup-insert k name file known in
    elim (Option-cases (lookup str_eq name known)) [
      | inl e ↦ elim (Option-cases (lookup str_eq k known)) [
        | inl n ↦ rw (put_new, e, at, n) refl
        | inr (x, n) ↦ elim (Bool-cases (str_eq name k)) [
          | inl q ↦
              let same : name ≡ k = (str_eq_iff name k).0 q in
              absurd (ground (arith, rw (same, n) at e))
          | inr q ↦ rw (put_new, e, at, n, q) refl
        ]
      ]
      | inr (y, e) ↦ elim (Option-cases (lookup str_eq k known)) [
        | inl n ↦ elim (Bool-cases (str_eq name k)) [
          | inl q ↦
              let same : name ≡ k = (str_eq_iff name k).0 q in
              absurd (ground (arith, rw (same, n) at e))
          | inr q ↦ rw (put_new, e, n, q) refl
        ]
        | inr (x, n) ↦ rw (put_new, e, n) refl
      ]
    ]

kept-put_new :
    (dir k name file : Str) (known : List (Str × Str)) (files : List Str)
    → stem file ≡ some name
    → kept dir k (put_new name (dir ++ (b'/' ∷ file)) known) files ≡ kept dir k known (file ∷ files)
unfolding kept is_stem
kept-put_new dir k name file known files s =
    let at = lookup-put_new k name (dir ++ (b'/' ∷ file)) known in
    elim (Option-cases (lookup str_eq k known)) [
      | inl n ↦ elim (Bool-cases (str_eq name k)) [
        | inl q ↦ rw (kept, at, n, q, is_stem, s, q) refl
        | inr q ↦ rw (kept, at, n, q, is_stem, s, q) refl
      ]
      | inr (x, n) ↦ rw (kept, at, n) refl
    ]

kept-nil : (dir k : Str) (known : List (Str × Str)) → kept dir k known [] ≡ lookup str_eq k known
unfolding kept
kept-nil dir k known = elim (Option-cases (lookup str_eq k known)) [
  | inl n ↦ rw (kept, n) refl
  | inr (x, n) ↦ rw (kept, n) refl
]

-- What is kept of files that may have been read.
abbrev kept_read : Str → Str → List (Str × Str) → Option (List Str) → Option Str
kept_read dir k known none = none
kept_read dir k known (some files) = kept dir k known files

-- When the directory is read without an exception: the loop over the Lua files of the system returns,
-- and gives each name the collector that was known before, or the first file, among those with the
-- extension .lua, whose name without its extension this is.
pub load_system_lua-first :
    (dir : Str) (es : List Entry) (known : List (Str × Str)) (files : List Str)
    → load_files (codes ".lua") es ≡ some files
    → (known' : List (Str × Str)) × (load_system_lua dir es known ≡ some known')
      × ((k : Str) → lookup str_eq k known' ≡ kept dir k known files)
unfolding load_system_lua load_files visit_system_lua kept
load_system_lua-first dir [] known files h =
    (known, refl, λ k. sym (kept-nil dir k known) ∙ ap (kept_read dir k known) h)
load_system_lua-first dir (e ∷ es) known files h =
    let (name, named) = stem-some e.name in
    elim (Bool-cases (is_visible e)) [
      | inr hidden ↦
          let (more, made, each) =
            load_system_lua-first dir es known files (rw (load_files, hidden) at h) in
          (more, rw (load_system_lua, visit_system_lua, named, hidden) made, each)
      | inl seen ↦ elim (Option-cases (extension e.name)) [
        | inl n ↦ absurd (ground (arith, rw (load_files, seen, n) at h))
        | inr (ext, x) ↦ elim (Option-cases (load_files (codes ".lua") es)) [
          | inl n ↦ absurd (ground (arith, rw (load_files, seen, x, n) at h))
          | inr (names, l) ↦ elim (Bool-cases (str_eq ext (codes ".lua"))) [
            | inr q ↦
                let (more, made, each) = load_system_lua-first dir es known names l in
                let same = rw (load_files, seen, x, l, q) at h in
                (
                  more,
                  rw (load_system_lua, visit_system_lua, named, seen, x, q) made,
                  λ k. each k ∙ ap (kept_read dir k known) same,
                )
            | inl q ↦
                let next = put_new name (dir ++ (b'/' ∷ e.name)) known in
                let (more, made, each) = load_system_lua-first dir es next names l in
                let same = rw (load_files, seen, x, l, q) at h in
                (
                  more,
                  rw (load_system_lua, visit_system_lua, named, seen, x, q) made,
                  λ k.
                      each k
                      ∙ (kept-put_new dir k name e.name known names named
                          ∙ ap (kept_read dir k known) same),
                )
          ]
        ]
      ]
    ]
