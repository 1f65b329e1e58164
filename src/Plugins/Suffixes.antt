-- ===== src/Plugins/Suffixes.antt =====
-- Which files of a directory are opened.
use watched_agent.Base.{
  ℕ, ◌<◌, ◌^◌, Bool, true, false, ◌&&◌, ◌||◌, not, List, [], ◌∷◌, ◌++◌, none, some, if◌then◌else◌,
  Str, str_eq, str_eq_iff, ◌==◌, ◌⊎◌, any-append, ◌≡◌, refl, ap, arith, any, keep_if, all, map, All,
  length-append, Bool-cases, inl, inr, length, ltb,
}
use watched_agent.Text.{npos, rfind_char, substr}
use watched_agent.Text.Find.{Lacks, Lacks-or_last, rfind_char-append, substr_tail, rfind_from-Lacks}
use watched_agent.Plugins.{Entry, is_visible, extension, load_files}

-- The extension begins at the last dot.
extension-append :
    (name ext : Str)
    → Lacks b'.' ext
    → length ext < 2 ^ 63
    → extension (name ++ b'.' ∷ ext) ≡ some (b'.' ∷ ext)
unfolding extension
extension-append name ext h k =
    rw (rfind_char-append b'.' name ext h) (substr_tail name (b'.' ∷ ext) npos (omega arith))

less : (a b : ℕ) → a < b → ltb a b ≡ true
less a b h = ground arith

-- A name without a dot has none: the exception is thrown.
extension-Lacks : (name : Str) → Lacks b'.' name → length name < npos → extension name ≡ none
unfolding extension rfind_char substr
extension-Lacks name h k = rw (rfind_from-Lacks b'.' 0 npos name h, less (length name) npos k) refl

unfoldable pub has_dot : Str → Bool
has_dot name = any (λ c. c == b'.') name

-- The text ends in `ext`.
unfoldable pub ends_with : Str → Str → Bool
ends_with ext [] = str_eq [] ext
ends_with ext (c ∷ s) = str_eq (c ∷ s) ext || ends_with ext s

has_dot-Lacks : (name : Str) → Lacks b'.' name → has_dot name ≡ false
unfolding has_dot
has_dot-Lacks [] h = refl
has_dot-Lacks (c ∷ s) h = ground (arith, has_dot-Lacks s h.1, h.0)

has_dot-append : (front back : Str) → has_dot (front ++ b'.' ∷ back) ≡ true
unfolding has_dot
has_dot-append front back = ground (arith, any-append (λ c. c == b'.') front (b'.' ∷ back))

str_eq-dot : (s t : Str) → has_dot s ≡ true → Lacks b'.' t → str_eq s t ≡ false
str_eq-dot s t h k = elim (Bool-cases (str_eq s t)) [
  | inl e ↦
      let same : s ≡ t = (str_eq_iff s t).0 e in
      absurd (ground (arith, has_dot-Lacks t k, ap has_dot same, h))
  | inr e ↦ e
]

-- A directory is read without an exception if every name that is not passed over has a dot.
unfoldable pub is_readable : List Entry → Bool
is_readable es = all (λ e. not (is_visible e) || has_dot e.name) es

-- The names that are not passed over and end in `ext`.
unfoldable pub names_with : Str → List Entry → List Str
names_with ext es =
    map (λ e. e.name) (keep_if (λ (e : Entry). is_visible e && ends_with ext e.name) es)

module _ (ext : Str) (h : Lacks b'.' ext) where
  ends_with-Lacks : (s : Str) → Lacks b'.' s → ends_with (b'.' ∷ ext) s ≡ false
  unfolding ends_with str_eq
  ends_with-Lacks [] k = refl
  ends_with-Lacks (c ∷ s) k = ground (arith, ends_with-Lacks s k.1, k.0)

  ends_with-append :
      (front back : Str)
      → Lacks b'.' back
      → ends_with (b'.' ∷ ext) (front ++ b'.' ∷ back) ≡ str_eq (b'.' ∷ back) (b'.' ∷ ext)
  unfolding ends_with str_eq
  ends_with-append [] back k = ground (arith, ends_with-Lacks back k)
  ends_with-append (x ∷ front) back k =
      rw
        (
          str_eq-dot (front ++ b'.' ∷ back) ext (has_dot-append front back) h,
          ends_with-append front back k,
        )
        (ground arith)

  -- What the extension of a name is.
  Cut : Str → Type 0
  Cut name =
      ((has_dot name ≡ false) × (extension name ≡ none))
      ⊎ ((found : Str) × (has_dot name ≡ true)
          × (extension name ≡ some found)
          × (str_eq found (b'.' ∷ ext) ≡ ends_with (b'.' ∷ ext) name))

  name-Cut : (name : Str) → length name < 2 ^ 63 → Cut name
  unfolding Cut
  name-Cut name short = elim (Lacks-or_last b'.' name) [
    | inl none_of ↦ inl (has_dot-Lacks name none_of, extension-Lacks name none_of (omega arith))
    | inr (front, back, e, k) ↦
        let size = length-append front (b'.' ∷ back) in
        let size' : length back < 2 ^ 63 = omega (arith, size, ap length e) in
        inr (
          b'.' ∷ back,
          rw e (has_dot-append front back),
          rw e (extension-append front back k size'),
          rw (e, ends_with-append front back k) refl,
        )
  ]

  -- For an extension of a dot and a text without dots, and names shorter than 2 ^ 63: the loop over a
  -- directory opens, in order, exactly the files that are not passed over and end in the extension; it
  -- throws exactly when some file that is not passed over has no dot in its name.
  pub load_files_lem :
      (es : List Entry)
      → All (λ e. length e.name < 2 ^ 63) es
      → load_files (b'.' ∷ ext) es
        ≡ (if is_readable es then some (names_with (b'.' ∷ ext) es) else none)
  unfolding load_files is_readable names_with Cut
  load_files_lem [] short = refl
  load_files_lem (e ∷ es) short =
      let ih = load_files_lem es short.1 in
      elim (Bool-cases (is_visible e)) [
        | inr hidden ↦ rw hidden ih
        | inl seen ↦ elim (name-Cut e.name short.0) [
          | inl (bare, thrown) ↦ rw (load_files, seen, thrown, bare) refl
          | inr (found, dot, cut, same) ↦ elim (Bool-cases (is_readable es)) [
            | inl ok ↦ elim (Bool-cases (ends_with (b'.' ∷ ext) e.name)) [
              | inl w ↦ rw (load_files, seen, cut, dot, ih, ok, same, w) refl
              | inr w ↦ rw (load_files, seen, cut, dot, ih, ok, same, w) refl
            ]
            | inr bad ↦ rw (load_files, seen, cut, dot, ih, bad) refl
          ]
        ]
      ]
