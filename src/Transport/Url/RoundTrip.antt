-- ===== src/Transport/Url/RoundTrip.antt =====
-- The parse of a printed URL.
use zenoh_plugin_lcm.Base.{
  ℕ, zero, suc, ◌<◌, ◌^◌, ◌≡◌, inl, inr, refl, sym, ap, ◌∙◌, subst, arith, Bool, true, false, ◌||◌,
  ◌&&◌, List, [], ◌∷◌, ◌++◌, Option, none, some, length, All, ltb, append_assoc, append-nil,
}
use zenoh_plugin_lcm.Base.Str.{Str, codes, strip_prefix}
use zenoh_plugin_lcm.Transport.Url.{
  valid, split, LcmUrl, set_params, parse_host, parse_trimmed, trim, trim_front, parse, white_space,
  reversed, all_reversed, strip_one,
}
use zenoh_plugin_lcm.Transport.Url.Decimal.{
  IsDigit, decimal, decimal-IsDigit, length-decimal, parse_unsigned-decimal,
}
use zenoh_plugin_lcm.Transport.Url.Ranges.{IsInRange, BelowIfSome}
use zenoh_plugin_lcm.Transport.Url.Print.{
  Lacks, Lacks-append, split-append, split-Lacks, split_once-append, rsplit_once-append, print_ipv4,
  print_size, print_host, print_query, print, parse_ipv4-print_ipv4, ttl_text, size_text,
  decimal-Lacks, set_params-ttl, set_params-size,
}

set_params-print_query :
    (u : LcmUrl) (ttl : ℕ) (size : Option ℕ)
    → u.recv_buf_size ≡ none
    → ttl < 2 ^ 32
    → BelowIfSome (2 ^ 64) size
    → set_params (split b'&' (codes "ttl=" ++ (decimal ttl ++ print_size size))) u
      ≡ valid (record u { ttl = ttl; recv_buf_size = size })
unfolding set_params
set_params-print_query u ttl none e h k =
    rw
      (
        append-nil (decimal ttl),
        split-Lacks b'&' (ttl_text ttl) (
            Lacks-append b'&' (codes "ttl=") (decimal ttl) (omega arith)
              (decimal-Lacks b'&' ttl (inl (omega arith)))),
        set_params-ttl u ttl [] h,
      )
      (ap (λ (o : Option ℕ). valid (record u { ttl = ttl; recv_buf_size = o })) e)
set_params-print_query u ttl (some n) e h k =
    rw
      (
        split-append b'&' (ttl_text ttl) (size_text n) (
            Lacks-append b'&' (codes "ttl=") (decimal ttl) (omega arith)
              (decimal-Lacks b'&' ttl (inl (omega arith)))),
        split-Lacks b'&' (size_text n) (
            Lacks-append b'&' (codes "recv_buf_size=") (decimal n) (omega arith)
              (decimal-Lacks b'&' n (inl (omega arith)))),
        set_params-ttl u ttl (size_text n ∷ []) h,
        set_params-size (record u { ttl = ttl }) n [] k,
      )
      refl

-- White space and digits have nothing in common, read from either side.
starts_apart : Str → Bool
starts_apart [] = false
starts_apart (b ∷ s) = ltb b b'0' || ltb b'9' b

all_apart : List Str → Bool
all_apart [] = true
all_apart (c ∷ cs) = starts_apart c && all_apart cs

strip_one-digit :
    (cs : List Str) (d : ℕ) (s : Str)
    → all_apart cs ≡ true
    → IsDigit d
    → strip_one cs (d ∷ s) ≡ none
unfolding strip_prefix all_apart starts_apart
strip_one-digit [] d s h k = refl
strip_one-digit ([] ∷ cs) d s h k = cc
strip_one-digit ((b ∷ c) ∷ cs) d s h k = ground (arith, strip_one-digit cs d s)

reversed-append : (s t : Str) → reversed (s ++ t) ≡ reversed t ++ reversed s
reversed-append [] t = sym (append-nil (reversed t))
reversed-append (b ∷ s) t =
    ap (λ (l : Str). l ++ (b ∷ [])) (reversed-append s t)
    ∙ append_assoc (reversed t) (reversed s) (b ∷ [])

reversed-reversed : (s : Str) → reversed (reversed s) ≡ s
reversed-reversed [] = refl
reversed-reversed (b ∷ s) = reversed-append (reversed s) (b ∷ []) ∙ ap (◌∷◌ b) (reversed-reversed s)

-- A text that ends in digits begins with one from behind.
reversed-digits :
    (s t : Str)
    → 0 < length t
    → All IsDigit t
    → (d : ℕ) × (r : Str) × (reversed (s ++ t) ≡ d ∷ r) × IsDigit d
reversed-digits s [] h k = absurd (omega arith)
reversed-digits s (b ∷ []) h k = (b, reversed s, reversed-append s (b ∷ []), k.0)
reversed-digits s (b ∷ c ∷ t) h k =
    let (d, r, e, digit) = reversed-digits (s ++ (b ∷ [])) (c ∷ t) (omega arith) k.1 in
    (d, r, ap reversed (sym (append_assoc s (b ∷ []) (c ∷ t))) ∙ e, digit)

trim_front-still :
    (fuel : ℕ) (cs : List Str) (s : Str) → strip_one cs s ≡ none → trim_front fuel cs s ≡ s
unfolding trim_front
trim_front-still zero cs s h = refl
trim_front-still (suc fuel) cs s h = ground arith

no_white_u : (s : Str) → strip_one white_space (b'u' ∷ s) ≡ none
unfolding strip_prefix
no_white_u s = refl

white_apart : all_apart (all_reversed white_space) ≡ true
unfolding all_apart starts_apart
white_apart = refl

trim-digits : (s t : Str) → 0 < length t → All IsDigit t → trim (b'u' ∷ (s ++ t)) ≡ b'u' ∷ (s ++ t)
unfolding trim
trim-digits s t h k =
    let url : Str = b'u' ∷ (s ++ t) in
    let back : List Str = all_reversed white_space in
    let (d, r, e, digit) = reversed-digits (b'u' ∷ s) t h k in
    let still : strip_one back (reversed url) ≡ none =
      ap (strip_one back) e ∙ strip_one-digit back d r white_apart digit in
    ap (λ (front : Str). reversed (trim_front (length front) back (reversed front)))
      (trim_front-still (length url) white_space url (no_white_u (s ++ t)))
    ∙ ap reversed (trim_front-still (length url) back (reversed url) still)
    ∙ reversed-reversed url

parse_host-print :
    (u : LcmUrl) → IsInRange u → parse_host (print_host u, split b'&' (print_query u)) ≡ valid u
unfolding parse_host
parse_host-print u h =
    let (a, b, c, d) = h.group in
    rw
      (
        rsplit_once-append b':' (print_ipv4 u.multicast_group) (decimal u.port)
            (decimal-Lacks b':' u.port (inr (omega arith))),
        parse_ipv4-print_ipv4 u.multicast_group.0 u.multicast_group.1 u.multicast_group.2
            u.multicast_group.3 a b c d,
        parse_unsigned-decimal (2 ^ 16) u.port h.port,
      )
      (set_params-print_query _ u.ttl u.recv_buf_size refl h.ttl h.recv_buf_size)

host-Lacks : (u : LcmUrl) → Lacks b'?' (print_host u)
host-Lacks u =
    Lacks-append b'?' (print_ipv4 u.multicast_group) _
      (dotted u.multicast_group.0 _
        (dotted u.multicast_group.1 _ (dotted u.multicast_group.2 _ (plain u.multicast_group.3))))
      (omega arith, plain u.port)
  where
    plain : (n : ℕ) → Lacks b'?' (decimal n)
    plain n = decimal-Lacks b'?' n (inr (omega arith))

    dotted : (n : ℕ) (s : Str) → Lacks b'?' s → Lacks b'?' (decimal n ++ (b'.' ∷ s))
    dotted n s h = Lacks-append b'?' (decimal n) _ (plain n) (omega arith, h)

parse_trimmed-print : (u : LcmUrl) → IsInRange u → parse_trimmed (print u) ≡ valid u
unfolding parse_trimmed print strip_prefix
parse_trimmed-print u h =
    rw (split_once-append b'?' (print_host u) (print_query u) (host-Lacks u)) (parse_host-print u h)

trim-url :
    (host mid t : Str)
    → 0 < length t
    → All IsDigit t
    → let url : Str = codes "udpm://" ++ (host ++ (codes "?ttl=" ++ (mid ++ t))) in trim url ≡ url
trim-url host mid t h k =
    subst (λ (x : Str). trim (codes "udpm://" ++ x) ≡ codes "udpm://" ++ x)
      (append_assoc host (codes "?ttl=" ++ mid) t)
      (trim-digits (codes "dpm://" ++ (host ++ (codes "?ttl=" ++ mid))) t h k)

trim-print : (u : LcmUrl) → trim (print u) ≡ print u
unfolding print
trim-print u = by_size u.recv_buf_size
  where
    by_size :
        (o : Option ℕ)
        → let url : Str =
            codes "udpm://"
            ++ (print_host u ++ (codes "?ttl=" ++ (decimal u.ttl ++ print_size o))) in
          trim url ≡ url
    by_size none =
        rw (append-nil (decimal u.ttl)) (
          trim-url (print_host u) [] (decimal u.ttl) (length-decimal u.ttl) (decimal-IsDigit u.ttl))
    by_size (some n) =
        subst
          (λ (x : Str).
            trim (codes "udpm://" ++ (print_host u ++ (codes "?ttl=" ++ x)))
            ≡ codes "udpm://" ++ (print_host u ++ (codes "?ttl=" ++ x)))
          (append_assoc (decimal u.ttl) (codes "&recv_buf_size=") (decimal n))
          (trim-url (print_host u) (decimal u.ttl ++ codes "&recv_buf_size=") (decimal n)
            (length-decimal n) (decimal-IsDigit n))

-- A URL whose fields fit their types, printed with both parameters, is parsed back as it was.
pub parse-print : (u : LcmUrl) → IsInRange u → parse (print u) ≡ valid u
unfolding parse
parse-print u h = ap parse_trimmed (trim-print u) ∙ parse_trimmed-print u h
