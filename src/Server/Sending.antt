-- ===== src/Server/Sending.antt =====
-- The chunks of a static file make up the file.
use watched_agent.Resource.Texts.{with_length}
use watched_agent.Base.{
  none, if◌then◌else◌, ℕ, zero, suc, ◌+◌, ◌≤◌, ◌<◌, Bool, ◌&&◌, not, [], ◌∷◌, ◌++◌, append_assoc,
  append-nil, Option, some, Str, ◌==◌, length, take, drop, codes, ◌≡◌, refl, ap, arith, Bool-cases,
  inl, inr, ◌∙◌, ◌⊎◌,
}
use watched_agent.Server.{
  Files, Try, throw, good, Response, not_modified, found, resource_send, join, buffer_size, render,
  resolve, hex_text, error_text, found_head, quote,
}

take-drop : (n : ℕ) (s : Str) → take n s ++ drop n s ≡ s
take-drop zero s = refl
take-drop (suc n) [] = refl
take-drop (suc n) (c ∷ s) = ap (◌∷◌ c) (take-drop n s)

length-drop : (n c : ℕ) (s : Str) → 0 < n → length (drop n (c ∷ s)) ≤ length s
length-drop zero c s h = absurd (omega arith)
length-drop (suc zero) c s h = omega arith
length-drop (suc (suc n)) c [] h = omega arith
length-drop (suc (suc n)) c (d ∷ s) h = omega (arith, length-drop (suc n) d s (omega arith))

module _ (size : ℕ) (pos : 0 < size) where
  -- Whatever sends fail, the chunks are a beginning of the text.
  resource_send-begins :
      (breaks : ℕ → Bool) (i fuel : ℕ) (s : Str)
      → (rest : Str) × (join (resource_send breaks i fuel size s) ++ rest ≡ s)
  unfolding join resource_send
  resource_send-begins breaks i zero s = (s, refl)
  resource_send-begins breaks i (suc fuel) [] = ([], refl)
  resource_send-begins breaks i (suc fuel) (c ∷ s) =
      elim (Bool-cases ((length (take size (c ∷ s)) == size) && not (breaks i))) [
        | inl e ↦
            let more = resource_send-begins breaks (i + 1) fuel (drop size (c ∷ s)) in
            (
              more.0,
              rw e (
                  append_assoc (take size (c ∷ s)) _ more.0
                  ∙ (ap (◌++◌ (take size (c ∷ s))) more.1 ∙ take-drop size (c ∷ s))),
            )
        | inr e ↦
            (drop size (c ∷ s), rw (e, append-nil (take size (c ∷ s))) (take-drop size (c ∷ s)))
      ]

  -- Chunks of at least one byte are the same on any two amounts of fuel above the length of the file,
  -- whatever sends fail.
  pub resource_send-fuel :
      (breaks : ℕ → Bool) (i f g : ℕ) (s : Str)
      → length s < f
      → length s < g
      → resource_send breaks i f size s ≡ resource_send breaks i g size s
  unfolding resource_send
  resource_send-fuel breaks i zero g s h k = absurd (omega arith)
  resource_send-fuel breaks i (suc f) zero s h k = absurd (omega arith)
  resource_send-fuel breaks i (suc f) (suc g) [] h k = refl
  resource_send-fuel breaks i (suc f) (suc g) (c ∷ s) h k =
      let e = length-drop size c s pos in
      rw
        (resource_send-fuel breaks (i + 1) f g (drop size (c ∷ s)) (omega (arith, e))
          (omega (arith, e)))
        refl

-- The tag of a file: the hexadecimal SHA-256 of its bytes, or nothing when the read of sha256 failed.
abbrev pub tag_text : Files → Str → Str → Str
tag_text files p bytes = if files.reads p then hex_text (files.digest bytes) else []

-- What a client receives: word that its copy is current, when it sent the tag of the file; the whole file
-- with its length and its tag; or an error text with its length, when there is no file or it cannot be
-- opened.
abbrev pub Received : Files → Str → Option Str → Str → Response → Type 0
Received files root sent path r =
    ((p : Str) × (bytes : Str) × (resolve files root path ≡ good p)
      × (files.content p ≡ some bytes)
      × (sent ≡ some (quote (tag_text files p bytes)))
      × (r ≡ not_modified (tag_text files p bytes)))
    ⊎ (((p : Str) × (bytes : Str) × (resolve files root path ≡ good p)
          × (files.content p ≡ some bytes)
          × (render r ≡ with_length (found_head (tag_text files p bytes)) bytes))
        ⊎ ((what : Str) × ((resolve files root path ≡ throw what)
              ⊎ ((p : Str) × (resolve files root path ≡ good p)
                  × (files.content p ≡ none)
                  × (what ≡ files.length_error)))
            × (render r
                ≡ with_length (codes "HTTP/1.1 400 Bad Request\r\n") (error_text path what))))

module _ (files : Files) (breaks : ℕ → Bool) (tag : Option Str) where
  -- The three ends of `answer`.
  Ends : Str → Try Response → Type 0
  Ends p t =
      ((files.content p ≡ none) × (t ≡ throw files.length_error))
      ⊎ (((bytes : Str) × (files.content p ≡ some bytes)
            × (tag ≡ some (quote (tag_text files p bytes)))
            × (t ≡ good (not_modified (tag_text files p bytes))))
          ⊎ ((bytes : Str) × (files.content p ≡ some bytes)
              × (t
                  ≡ good (
                      found (tag_text files p bytes) (length bytes)
                        (resource_send breaks 0 (suc (length bytes)) buffer_size bytes)))))
