-- ===== src/Transport/Url/Print.antt =====
-- A URL that is printed is parsed back.
use zenoh_plugin_lcm.Base.{
  ℕ, ◌<◌, ◌^◌, ◌≡◌, ◌≢◌, ◌⊎◌, inl, refl, arith, List, [], ◌∷◌, ◌++◌, Option, none, some, All,
}
use zenoh_plugin_lcm.Base.Str.{Str, codes}
use zenoh_plugin_lcm.Transport.Url.{
  parse_ipv4, Ipv4Addr, split, split_once, rsplit_once, LcmUrl, set_params, set_param,
}
use zenoh_plugin_lcm.Transport.Url.Decimal.{
  IsDigit, decimal, decimal-IsDigit, parse_unsigned-decimal, parse_octet-decimal,
}

-- The parts of a URL without the byte `c`.
abbrev pub Lacks : ℕ → Str → Type 0
Lacks c s = All (λ b. b ≢ c) s

digits-Lacks : (c : ℕ) (s : Str) → ((c < b'0') ⊎ (b'9' < c)) → All IsDigit s → Lacks c s
digits-Lacks c [] h k = tt
digits-Lacks c (b ∷ s) h k = (omega (arith, k.0), digits-Lacks c s h k.1)

pub Lacks-append : (c : ℕ) (s t : Str) → Lacks c s → Lacks c t → Lacks c (s ++ t)
Lacks-append c [] t h k = k
Lacks-append c (b ∷ s) t h k = (h.0, Lacks-append c s t h.1 k)

pub split-append : (c : ℕ) (s t : Str) → Lacks c s → split c (s ++ (c ∷ t)) ≡ s ∷ split c t
unfolding split
split-append c [] t h = ground arith
split-append c (b ∷ s) t h = ground (arith, split-append c s t h.1)

pub split-Lacks : (c : ℕ) (s : Str) → Lacks c s → split c s ≡ s ∷ []
unfolding split
split-Lacks c [] h = refl
split-Lacks c (b ∷ s) h = ground (arith, split-Lacks c s h.1)

pub split_once-append : (c : ℕ) (s t : Str) → Lacks c s → split_once c (s ++ (c ∷ t)) ≡ some (s, t)
unfolding split_once
split_once-append c [] t h = ground arith
split_once-append c (b ∷ s) t h = ground (arith, split_once-append c s t h.1)

rsplit_once-Lacks : (c : ℕ) (s : Str) → Lacks c s → rsplit_once c s ≡ none
unfolding rsplit_once
rsplit_once-Lacks c [] h = refl
rsplit_once-Lacks c (b ∷ s) h = ground (arith, rsplit_once-Lacks c s h.1)

pub rsplit_once-append :
    (c : ℕ) (s t : Str) → Lacks c t → rsplit_once c (s ++ (c ∷ t)) ≡ some (s, t)
unfolding rsplit_once
rsplit_once-append c [] t h = ground (arith, rsplit_once-Lacks c t h)
rsplit_once-append c (b ∷ s) t h = ground (arith, rsplit_once-append c s t h)

-- The printed form, with both parameters.
abbrev pub print_ipv4 : Ipv4Addr → Str
print_ipv4 (a, b, c, d) =
    decimal a ++ (b'.' ∷ (decimal b ++ (b'.' ∷ (decimal c ++ (b'.' ∷ decimal d)))))

abbrev pub print_size : Option ℕ → Str
print_size none = []
print_size (some n) = codes "&recv_buf_size=" ++ decimal n

abbrev pub print_host : LcmUrl → Str
print_host u = print_ipv4 u.multicast_group ++ (b':' ∷ decimal u.port)

abbrev pub print_query : LcmUrl → Str
print_query u = codes "ttl=" ++ (decimal u.ttl ++ print_size u.recv_buf_size)

unfoldable pub print : LcmUrl → Str
print u = codes "udpm://" ++ (print_host u ++ (b'?' ∷ print_query u))

pub parse_ipv4-print_ipv4 :
    (a b c d : ℕ)
    → a < 256
    → b < 256
    → c < 256
    → d < 256
    → parse_ipv4 (print_ipv4 (a, b, c, d)) ≡ some (a, b, c, d)
unfolding parse_ipv4
parse_ipv4-print_ipv4 a b c d ha hb hc hd =
    rw
      (
        split-append b'.' (decimal a) _ (dotless a),
        split-append b'.' (decimal b) _ (dotless b),
        split-append b'.' (decimal c) _ (dotless c),
        split-Lacks b'.' (decimal d) (dotless d),
        parse_octet-decimal a ha,
        parse_octet-decimal b hb,
        parse_octet-decimal c hc,
        parse_octet-decimal d hd,
      )
      refl
  where
    dotless : (n : ℕ) → Lacks b'.' (decimal n)
    dotless n = digits-Lacks b'.' (decimal n) (inl (omega arith)) (decimal-IsDigit n)

abbrev pub ttl_text : ℕ → Str
ttl_text n = codes "ttl=" ++ decimal n

abbrev pub size_text : ℕ → Str
size_text n = codes "recv_buf_size=" ++ decimal n

pub decimal-Lacks : (c n : ℕ) → ((c < b'0') ⊎ (b'9' < c)) → Lacks c (decimal n)
decimal-Lacks c n h = digits-Lacks c (decimal n) h (decimal-IsDigit n)

module _ (u : LcmUrl) where
  pub set_params-ttl :
      (n : ℕ) (params : List Str)
      → n < 2 ^ 32
      → set_params (ttl_text n ∷ params) u ≡ set_params params (record u { ttl = n })
  unfolding set_params set_param
  set_params-ttl n params k =
      rw
        (
          split_once-append b'=' (codes "ttl") (decimal n) (omega arith),
          parse_unsigned-decimal (2 ^ 32) n k,
        )
        refl

  pub set_params-size :
      (n : ℕ) (params : List Str)
      → n < 2 ^ 64
      → set_params (size_text n ∷ params) u
        ≡ set_params params (record u { recv_buf_size = some n })
  unfolding set_params set_param
  set_params-size n params k =
      rw
        (
          split_once-append b'=' (codes "recv_buf_size") (decimal n) (omega arith),
          parse_unsigned-decimal (2 ^ 64) n k,
        )
        refl
