-- ===== src/Transport/Url.antt =====
-- lcm-transport/src/types.rs: LCM URLs. Rust's parsers of unsigned integers and of IPv4 addresses, and
-- its splitting and trimming of texts, are written out.
pub mod Ranges
pub mod Trim
pub mod Decimal
pub mod Print
pub mod RoundTrip
use zenoh_plugin_lcm.Base.{
  ℕ, zero, suc, ◌+◌, ◌-◌, ◌*◌, ◌^◌, Bool, true, false, ◌&&◌, List, [], ◌∷◌, ◌++◌, Option, none,
  some, length, ltb, leb, ◌==◌, if◌then◌else◌,
}
use zenoh_plugin_lcm.Base.Str.{Str, codes, between, strip_prefix, same_text}

pub data UrlError : Type 0 where
  wrong_scheme no_port bad_group bad_port bad_ttl bad_recv_buf_size : UrlError

-- `Result<_, String>`
pub data Checked {ℓ} (A : Type ℓ) : Type ℓ where
  valid : A → Checked A
  invalid : UrlError → Checked A

infixl 5 ◌>>=◌
abbrev pub ◌>>=◌ {ℓ κ} : {A : Type ℓ} {B : Type κ} → Checked A → (A → Checked B) → Checked B
valid a >>= f = f a
invalid e >>= f = invalid e

-- `ok_or_else` and `map_err`, with `?`
abbrev pub or_invalid {ℓ} : {A : Type ℓ} → Option A → UrlError → Checked A
or_invalid none e = invalid e
or_invalid (some a) e = valid a

-- The value of a decimal text, from the value so far, if it stays below the bound.
unfoldable pub digits_below : ℕ → ℕ → Str → Option ℕ
digits_below bound n [] = some n
digits_below bound n (b ∷ s) =
    let next = n * 10 + (b - b'0') in
    let rest = digits_below bound next s in
    if between b'0' b'9' b && ltb next bound then rest else none

-- `str::parse` for an unsigned integer below the bound: a plus sign may come first.
unfoldable pub parse_unsigned : ℕ → Str → Option ℕ
unfolding digits_below
parse_unsigned bound [] = none
parse_unsigned bound (b ∷ []) = digits_below bound 0 (b ∷ [])
parse_unsigned bound (b ∷ c ∷ s) =
    if b == b'+' then digits_below bound 0 (c ∷ s) else digits_below bound 0 (b ∷ c ∷ s)

-- `str::split_once` at an ASCII character.
unfoldable pub split_once : ℕ → Str → Option (Str × Str)
split_once c [] = none
split_once c (b ∷ s) =
    let rest = split_once c s in
    if b == c then some ([], s) else elim rest [ none ↦ none | some (l, r) ↦ some (b ∷ l, r) ]

-- `str::rsplit_once`
unfoldable pub rsplit_once : ℕ → Str → Option (Str × Str)
rsplit_once c [] = none
rsplit_once c (b ∷ s) =
    let rest = rsplit_once c s in
    elim rest [ none ↦ if b == c then some ([], s) else none | some (l, r) ↦ some (b ∷ l, r) ]

abbrev onto_first : ℕ → List Str → List Str
onto_first b [] = (b ∷ []) ∷ []
onto_first b (s ∷ ss) = (b ∷ s) ∷ ss

-- `str::split`: one part more than there are separators.
unfoldable pub split : ℕ → Str → List Str
split c [] = [] ∷ []
split c (b ∷ s) = let rest = split c s in if b == c then [] ∷ rest else onto_first b rest

-- One part of an IPv4 address: at most three digits, without a leading zero.
unfoldable pub parse_octet : Str → Option ℕ
unfolding digits_below
parse_octet [] = none
parse_octet (b ∷ s) =
    if ltb 2 (length s)
    then none
    else if b == b'0' && ltb 0 (length s)
    then none
    else digits_below 256 0 (b ∷ s)

abbrev pub Ipv4Addr : Type 0
Ipv4Addr = ℕ × ℕ × ℕ × ℕ

abbrev four_octets : Option ℕ → Option ℕ → Option ℕ → Option ℕ → Option Ipv4Addr
four_octets (some a) (some b) (some c) (some d) = some (a, b, c, d)
four_octets _ _ _ _ = none

abbrev of_parts : List Str → Option Ipv4Addr
of_parts (a ∷ b ∷ c ∷ d ∷ []) =
    four_octets (parse_octet a) (parse_octet b) (parse_octet c) (parse_octet d)
of_parts _ = none

-- `Ipv4Addr::from_str`
unfoldable pub parse_ipv4 : Str → Option Ipv4Addr
parse_ipv4 s = of_parts (split b'.' s)

pub record LcmUrl : Type 0 where
  pub multicast_group : Ipv4Addr
  pub port : ℕ
  pub ttl : ℕ
  pub recv_buf_size : Option ℕ

unfoldable pub default_url : LcmUrl
default_url = record {
  multicast_group = (239, 255, 76, 67);
  port = 7667;
  ttl = 0;
  recv_buf_size = none;
}

-- The `match` on the key of a parameter; another key is only logged.
unfoldable pub set_param : Str → Str → LcmUrl → Checked LcmUrl
set_param key value url =
    if same_text key (codes "ttl")
    then (do n ← or_invalid (parse_unsigned (2 ^ 32) value) bad_ttl; valid (record url { ttl = n }))
    else if same_text key (codes "recv_buf_size")
    then (do
      n ← or_invalid (parse_unsigned (2 ^ 64) value) bad_recv_buf_size
      valid (record url { recv_buf_size = some n }))
    else valid url

abbrev one_param : Option (Str × Str) → LcmUrl → Checked LcmUrl
one_param none url = valid url
one_param (some (key, value)) url = set_param key value url

-- `for param in query.split('&')`
unfoldable pub set_params : List Str → LcmUrl → Checked LcmUrl
set_params [] url = valid url
set_params (param ∷ params) url = do
  url' ← one_param (split_once b'=' param) url
  set_params params url'

abbrev with_query : Option (Str × Str) → Str → Str × List Str
with_query none rest = (rest, [])
with_query (some (host_port, query)) rest = (host_port, split b'&' query)

-- `LcmUrl::parse`, from the split of the host and the port on.
unfoldable pub parse_host : Str × List Str → Checked LcmUrl
parse_host (host_port, params) = do
  (group_str, port_str) ← or_invalid (rsplit_once b':' host_port) no_port
  group ← or_invalid (parse_ipv4 group_str) bad_group
  port ← or_invalid (parse_unsigned (2 ^ 16) port_str) bad_port
  set_params params (record { multicast_group = group; port = port; ttl = 0; recv_buf_size = none })

-- `LcmUrl::parse`, after the trimming.
unfoldable pub parse_trimmed : Str → Checked LcmUrl
unfolding parse_host
parse_trimmed url = do
  rest ← or_invalid (strip_prefix (codes "udpm://") url) wrong_scheme
  parse_host (with_query (split_once b'?' rest) rest)

-- The white space of Unicode, in UTF-8.
abbrev pub white_space : List Str
white_space =
    (0x20 ∷ [])
    ∷ (0x09 ∷ [])
    ∷ (0x0a ∷ [])
    ∷ (0x0b ∷ [])
    ∷ (0x0c ∷ [])
    ∷ (0x0d ∷ [])
    ∷ (0xc2 ∷ 0x85 ∷ [])
    ∷ (0xc2 ∷ 0xa0 ∷ [])
    ∷ (0xe1 ∷ 0x9a ∷ 0x80 ∷ [])
    ∷ (0xe2 ∷ 0x80 ∷ 0x80 ∷ [])
    ∷ (0xe2 ∷ 0x80 ∷ 0x81 ∷ [])
    ∷ (0xe2 ∷ 0x80 ∷ 0x82 ∷ [])
    ∷ (0xe2 ∷ 0x80 ∷ 0x83 ∷ [])
    ∷ (0xe2 ∷ 0x80 ∷ 0x84 ∷ [])
    ∷ (0xe2 ∷ 0x80 ∷ 0x85 ∷ [])
    ∷ (0xe2 ∷ 0x80 ∷ 0x86 ∷ [])
    ∷ (0xe2 ∷ 0x80 ∷ 0x87 ∷ [])
    ∷ (0xe2 ∷ 0x80 ∷ 0x88 ∷ [])
    ∷ (0xe2 ∷ 0x80 ∷ 0x89 ∷ [])
    ∷ (0xe2 ∷ 0x80 ∷ 0x8a ∷ [])
    ∷ (0xe2 ∷ 0x80 ∷ 0xa8 ∷ [])
    ∷ (0xe2 ∷ 0x80 ∷ 0xa9 ∷ [])
    ∷ (0xe2 ∷ 0x80 ∷ 0xaf ∷ [])
    ∷ (0xe2 ∷ 0x81 ∷ 0x9f ∷ [])
    ∷ (0xe3 ∷ 0x80 ∷ 0x80 ∷ [])
    ∷ []

abbrev pub reversed : List ℕ → List ℕ
reversed [] = []
reversed (b ∷ s) = reversed s ++ (b ∷ [])

abbrev pub all_reversed : List Str → List Str
all_reversed [] = []
all_reversed (s ∷ ss) = reversed s ∷ all_reversed ss

abbrev pub strip_one : List Str → Str → Option Str
strip_one [] s = none
strip_one (c ∷ cs) s =
    let rest = strip_one cs s in elim (strip_prefix c s) [ none ↦ rest | some t ↦ some t ]

-- At most one character goes for each byte of the text.
unfoldable pub trim_front : ℕ → List Str → Str → Str
trim_front zero cs s = s
trim_front (suc fuel) cs s = elim (strip_one cs s) [ none ↦ s | some t ↦ trim_front fuel cs t ]

-- `str::trim`
unfoldable pub trim : Str → Str
unfolding trim_front
trim s =
    let front = trim_front (length s) white_space s in
    reversed (trim_front (length front) (all_reversed white_space) (reversed front))

unfoldable pub parse : Str → Checked LcmUrl
unfolding parse_trimmed trim
parse url = parse_trimmed (trim url)
