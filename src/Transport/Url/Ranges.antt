-- ===== src/Transport/Url/Ranges.antt =====
-- What a parsed LCM URL holds fits its types.
use zenoh_plugin_lcm.Base.{
  ℕ, ◌+◌, ◌-◌, ◌*◌, ◌^◌, ◌<◌, ◌≡◌, refl, arith, Bool, true, false, List, [], ◌∷◌, Option, none,
  some, if◌then◌else◌, subst,
}
use zenoh_plugin_lcm.Base.Str.{same_text, Str, codes, strip_prefix}
use zenoh_plugin_lcm.Transport.Url.{
  Checked, valid, invalid, UrlError, wrong_scheme, no_port, bad_group, bad_port, bad_ttl,
  bad_recv_buf_size, or_invalid, digits_below, parse_unsigned, parse_octet, Ipv4Addr, four_octets,
  of_parts, parse_ipv4, split, split_once, rsplit_once, LcmUrl, set_param, one_param, set_params,
  with_query, parse_host, parse_trimmed, parse, trim, ◌>>=◌,
}

abbrev pub BelowIfSome : ℕ → Option ℕ → Type 0
BelowIfSome bound none = Unit {0}
BelowIfSome bound (some n) = n < bound

abbrev IsIpv4 : Ipv4Addr → Type 0
IsIpv4 (a, b, c, d) = (a < 256) × (b < 256) × (c < 256) × (d < 256)

-- The fields fit `Ipv4Addr`, `u16`, `u32` and `usize`.
pub record IsInRange (u : LcmUrl) : Type 0 where
  pub group : IsIpv4 u.multicast_group
  pub port : u.port < 2 ^ 16
  pub ttl : u.ttl < 2 ^ 32
  pub recv_buf_size : BelowIfSome (2 ^ 64) u.recv_buf_size

digits_below_lem : (bound n : ℕ) (s : Str) → n < bound → BelowIfSome bound (digits_below bound n s)
unfolding digits_below
digits_below_lem bound n [] h = h
digits_below_lem bound n (b ∷ s) h = ground (arith, digits_below_lem bound (n * 10 + (b - b'0')) s)

parse_unsigned_lem : (bound : ℕ) (s : Str) → 0 < bound → BelowIfSome bound (parse_unsigned bound s)
unfolding parse_unsigned
parse_unsigned_lem bound [] h = tt
parse_unsigned_lem bound (b ∷ []) h = digits_below_lem bound 0 (b ∷ []) h
parse_unsigned_lem bound (b ∷ c ∷ s) h =
    ground (arith, digits_below_lem bound 0 (c ∷ s) h, digits_below_lem bound 0 (b ∷ c ∷ s) h)

parse_octet_lem : (s : Str) → BelowIfSome 256 (parse_octet s)
unfolding parse_octet
parse_octet_lem [] = tt
parse_octet_lem (b ∷ s) = ground (arith, digits_below_lem 256 0 (b ∷ s) (omega arith))

four_octets_lem :
    (a b c d : Option ℕ) (addr : Ipv4Addr)
    → BelowIfSome 256 a
    → BelowIfSome 256 b
    → BelowIfSome 256 c
    → BelowIfSome 256 d
    → four_octets a b c d ≡ some addr
    → IsIpv4 addr
four_octets_lem (some a) (some b) (some c) (some d) (x, y, z, w) ha hb hc hd e = ground arith
four_octets_lem (some a) (some b) (some c) none addr ha hb hc hd e = cc
four_octets_lem (some a) (some b) none d addr ha hb hc hd e = cc
four_octets_lem (some a) none c d addr ha hb hc hd e = cc
four_octets_lem none b c d addr ha hb hc hd e = cc

of_parts_lem : (parts : List Str) (addr : Ipv4Addr) → of_parts parts ≡ some addr → IsIpv4 addr
of_parts_lem [] addr e = cc
of_parts_lem (a ∷ []) addr e = cc
of_parts_lem (a ∷ b ∷ []) addr e = cc
of_parts_lem (a ∷ b ∷ c ∷ []) addr e = cc
of_parts_lem (a ∷ b ∷ c ∷ d ∷ []) addr e =
    four_octets_lem (parse_octet a) (parse_octet b) (parse_octet c) (parse_octet d) addr
      (parse_octet_lem a) (parse_octet_lem b) (parse_octet_lem c) (parse_octet_lem d) e
of_parts_lem (a ∷ b ∷ c ∷ d ∷ x ∷ xs) addr e = cc

-- What a computation yields, if it is valid, has the property.
abbrev Yields {ℓ κ} : {A : Type ℓ} → (A → Type κ) → Checked A → Type κ
Yields P (valid a) = P a
Yields P (invalid e) = Unit

Yields-bind :
    {A B : Type 0} (P : A → Type 0) (Q : B → Type 0) (c : Checked A) (f : A → Checked B)
    → Yields P c
    → ((a : A) → P a → Yields Q (f a))
    → Yields Q (c >>= f)
Yields-bind P Q (valid a) f h k = k a h
Yields-bind P Q (invalid e) f h k = tt

Yields-if :
    {A : Type 0} (P : A → Type 0) (b : Bool) (c d : Checked A)
    → Yields P c
    → Yields P d
    → Yields P (if b then c else d)
Yields-if P true c d h k = h
Yields-if P false c d h k = k

Yields-or_invalid :
    {A : Type 0} (P : A → Type 0) (o : Option A) (e : UrlError)
    → ((a : A) → o ≡ some a → P a)
    → Yields P (or_invalid o e)
Yields-or_invalid P none e h = tt
Yields-or_invalid P (some a) e h = h a refl

parse_unsigned-below :
    (bound : ℕ) (s : Str) (n : ℕ) → 0 < bound → parse_unsigned bound s ≡ some n → n < bound
parse_unsigned-below bound s n h e = subst (BelowIfSome bound) e (parse_unsigned_lem bound s h)

set_param_lem :
    (key value : Str) (u : LcmUrl) → IsInRange u → Yields IsInRange (set_param key value u)
unfolding set_param
set_param_lem key value u h =
    Yields-if IsInRange (same_text key (codes "ttl")) _ _
      (Yields-bind (λ n. n < 2 ^ 32) IsInRange (or_invalid (parse_unsigned (2 ^ 32) value) bad_ttl)
        _
        (Yields-or_invalid (λ n. n < 2 ^ 32) (parse_unsigned (2 ^ 32) value) bad_ttl
          (λ n. parse_unsigned-below (2 ^ 32) value n (omega arith)))
        (λ n k. record {
          group = h.group;
          port = h.port;
          ttl = k;
          recv_buf_size = h.recv_buf_size;
        }))
      (Yields-if IsInRange (same_text key (codes "recv_buf_size")) _ _
        (Yields-bind (λ n. n < 2 ^ 64) IsInRange
          (or_invalid (parse_unsigned (2 ^ 64) value) bad_recv_buf_size) _
          (Yields-or_invalid (λ n. n < 2 ^ 64) (parse_unsigned (2 ^ 64) value) bad_recv_buf_size
            (λ n. parse_unsigned-below (2 ^ 64) value n (omega arith)))
          (λ n k. record { group = h.group; port = h.port; ttl = h.ttl; recv_buf_size = k }))
        h)

one_param_lem :
    (param : Option (Str × Str)) (u : LcmUrl) → IsInRange u → Yields IsInRange (one_param param u)
one_param_lem none u h = h
one_param_lem (some (key, value)) u h = set_param_lem key value u h

set_params_lem :
    (params : List Str) (u : LcmUrl) → IsInRange u → Yields IsInRange (set_params params u)
unfolding set_params
set_params_lem [] u h = h
set_params_lem (p ∷ params) u h =
    Yields-bind IsInRange IsInRange (one_param (split_once b'=' p) u) (set_params params)
      (one_param_lem (split_once b'=' p) u h) (set_params_lem params)

parse_ipv4-IsIpv4 : (s : Str) (addr : Ipv4Addr) → parse_ipv4 s ≡ some addr → IsIpv4 addr
unfolding parse_ipv4
parse_ipv4-IsIpv4 s addr e = of_parts_lem (split b'.' s) addr e

parse_trimmed_lem : (url : Str) → Yields IsInRange (parse_trimmed url)
unfolding parse_trimmed parse_host
parse_trimmed_lem url =
    Yields-bind (λ rest. Unit {0}) IsInRange
      (or_invalid (strip_prefix (codes "udpm://") url) wrong_scheme) _
      (Yields-or_invalid (λ rest. Unit {0}) (strip_prefix (codes "udpm://") url) wrong_scheme
        (λ a e. tt))
      (λ rest _. after_scheme (with_query (split_once b'?' rest) rest))
  where
    after_scheme : (q : Str × List Str) → Yields IsInRange (parse_host q)
    after_scheme (host_port, params) =
        Yields-bind (λ p. Unit {0}) IsInRange (or_invalid (rsplit_once b':' host_port) no_port) _
          (Yields-or_invalid (λ p. Unit {0}) (rsplit_once b':' host_port) no_port (λ a e. tt))
          (λ p _.
            Yields-bind IsIpv4 IsInRange (or_invalid (parse_ipv4 p.0) bad_group) _
              (Yields-or_invalid IsIpv4 (parse_ipv4 p.0) bad_group (parse_ipv4-IsIpv4 p.0))
              (λ group in_range.
                Yields-bind (λ n. n < 2 ^ 16) IsInRange
                  (or_invalid (parse_unsigned (2 ^ 16) p.1) bad_port) _
                  (Yields-or_invalid (λ n. n < 2 ^ 16) (parse_unsigned (2 ^ 16) p.1) bad_port
                    (λ n. parse_unsigned-below (2 ^ 16) p.1 n (omega arith)))
                  (λ port below. set_params_lem params _ (record {
                    group = in_range;
                    port = below;
                    ttl = omega arith;
                    recv_buf_size = tt;
                  }))))

pub parse-IsInRange : (url : Str) (u : LcmUrl) → parse url ≡ valid u → IsInRange u
unfolding parse
parse-IsInRange url u e = subst (Yields IsInRange) e (parse_trimmed_lem (trim url))
