-- ===== src/Transport/Multicast/Datagrams.antt =====
-- The datagrams of a message are the encoded fragments of its transfer.
use native.Mathlib.Omega.{arith}
use zenoh_plugin_lcm.Base.{
  ℕ, zero, suc, ◌+◌, ◌≡◌, refl, sym, ap, ap₂, ◌∙◌, Bytes, List, [], ◌∷◌, ◌++◌, none, some, length,
  flatten, length-append, take-append, append_assoc, append-nil,
}
use zenoh_plugin_lcm.Transport.Protocol.{encode_fragment}
use zenoh_plugin_lcm.Transport.Protocol.RoundTrip.{encoding}
use zenoh_plugin_lcm.Transport.Fragment.Render.{chunk_at, offset_of}
use zenoh_plugin_lcm.Transport.Fragment.Transfer.{Transfer, total, content, fragment_of}
use zenoh_plugin_lcm.Transport.Multicast.Fragments.{later_datagrams, datagrams_of}

-- The encoded fragments with the numbers `i`, `i + 1`, …, `k` of them.
unfoldable pub encodings : Transfer → ℕ → ℕ → List Bytes
encodings t i zero = []
encodings t i (suc k) = encoding (fragment_of t i) ∷ encodings t (suc i) k

pub length-encodings : (t : Transfer) (i k : ℕ) → length (encodings t i k) ≡ k
unfolding encodings
length-encodings t i zero = refl
length-encodings t i (suc k) = ap suc (length-encodings t (suc i) k)

chunk_at-append :
    (pre : List Bytes) (c : Bytes) (cs : List Bytes) → chunk_at (pre ++ (c ∷ cs)) (length pre) ≡ c
chunk_at-append [] c cs = refl
chunk_at-append (p ∷ pre) c cs = chunk_at-append pre c cs

flatten-append : (xs ys : List Bytes) → flatten (xs ++ ys) ≡ flatten xs ++ flatten ys
flatten-append [] ys = refl
flatten-append (x ∷ xs) ys =
    ap (◌++◌ x) (flatten-append xs ys) ∙ sym (append_assoc x (flatten xs) (flatten ys))

offset_of-append :
    (pre rest : List Bytes) → offset_of (pre ++ rest) (length pre) ≡ length (flatten pre)
offset_of-append pre rest = ap (λ (l : List Bytes). length (flatten l)) (take-append pre rest)

-- From the second fragment on.
later_datagrams-encodings :
    (t : Transfer) (p : Bytes) (pre rest : List Bytes)
    → t.chunks ≡ (p ∷ pre) ++ rest
    → later_datagrams t.key.1
        (length (content t))
        (total t)
        (suc (length pre))
        (length (flatten (p ∷ pre)))
        rest
      ≡ encodings t (suc (length pre)) (length rest)
unfolding later_datagrams encodings
later_datagrams-encodings t p pre [] e = refl
later_datagrams-encodings t p pre (c ∷ rest) e =
    let whole : t.chunks ≡ (p ∷ (pre ++ (c ∷ []))) ++ rest =
      e ∙ ap (◌∷◌ p) (sym (append_assoc pre (c ∷ []) rest)) in
    let more = later_datagrams-encodings t p (pre ++ (c ∷ [])) rest whole in
    let next : length (pre ++ (c ∷ [])) ≡ suc (length pre) =
      omega (arith, length-append pre (c ∷ [])) in
    let here : offset_of t.chunks (suc (length pre)) ≡ length (flatten (p ∷ pre)) =
      ap (λ (l : List Bytes). offset_of l (suc (length pre))) e
      ∙ offset_of-append (p ∷ pre) (c ∷ rest) in
    let chunk : chunk_at t.chunks (suc (length pre)) ≡ c =
      ap (λ (l : List Bytes). chunk_at l (suc (length pre))) e ∙ chunk_at-append (p ∷ pre) c rest in
    let size : length (flatten (p ∷ (pre ++ (c ∷ [])))) ≡ length (flatten (p ∷ pre)) + length c =
      ap length (flatten-append (p ∷ pre) (c ∷ []))
      ∙ length-append (flatten (p ∷ pre)) (c ++ [])
      ∙ ap (λ (x : Bytes). length (flatten (p ∷ pre)) + length x) (append-nil c) in
    let index : suc (length pre) + 1 ≡ suc (length (pre ++ (c ∷ []))) = omega (arith, next) in
    let head_same =
      ap₂
        (λ (o : ℕ) (x : Bytes).
          encode_fragment t.key.1 (length (content t)) o (suc (length pre)) (total t) none x)
        (sym here) (sym chunk) in
    let tail_same =
      ap₂ (λ (i o : ℕ). later_datagrams t.key.1 (length (content t)) (total t) i o rest) index
        (sym size) in
    ap₂ ◌∷◌ head_same (tail_same ∙ more ∙ ap (λ (i : ℕ). encodings t (suc i) (length rest)) next)

-- The datagrams of a transfer are its fragments, encoded in the order of their numbers.
pub datagrams_of-encodings :
    (t : Transfer)
    → datagrams_of t.key.1 (length (content t)) (total t) t.channel t.chunks
      ≡ encodings t 0 (total t)
unfolding datagrams_of encodings
datagrams_of-encodings t = by_chunks t.chunks refl
  where
    by_chunks :
        (cs : List Bytes)
        → t.chunks ≡ cs
        → datagrams_of t.key.1 (length (content t)) (total t) t.channel cs
          ≡ encodings t 0 (length cs)
    by_chunks [] e = refl
    by_chunks (c ∷ cs) e =
        let chunk : chunk_at t.chunks 0 ≡ c = ap (λ (l : List Bytes). chunk_at l 0) e in
        let seam : length c ≡ length (c ++ []) = ap length (sym (append-nil c)) in
        ap₂ ◌∷◌
          (ap
            (λ (x : Bytes).
              encode_fragment t.key.1 (length (content t)) 0 0 (total t) (some t.channel) x)
            (sym chunk))
          (ap (λ (o : ℕ). later_datagrams t.key.1 (length (content t)) (total t) 1 o cs) seam
            ∙ later_datagrams-encodings t c [] cs e)
