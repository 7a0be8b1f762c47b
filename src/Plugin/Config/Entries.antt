-- ===== src/Plugin/Config/Entries.antt =====
-- What an entry of an object holds at the type of a field, and that the readings of the fields find it.
use zenoh_plugin_lcm.Base.{
  ℕ, ◌≡◌, ◌↔◌, ◌⊎◌, refl, sym, ap, ◌∙◌, subst, arith, Bool, List, [], ◌∷◌, Option, none, some, inl,
  inr,
}
use zenoh_plugin_lcm.Base.Str.{Str, codes}
use zenoh_plugin_lcm.Plugin.Json.{
  Value, null, boolean, number, text, array, object, Values, nil, cons, Fields, get,
}
use zenoh_plugin_lcm.Plugin.Config.{RegexApi, deserialize_regex}
use zenoh_plugin_lcm.Plugin.Config.Values.{
  ◌>>=◌, read_text, read_usize, read_option_text, read_option_bool, visit_seq, deserialize_path,
  or_default, read_regex,
}

pub >>=-eq-some :
    {A B : Type 0} (o : Option A) (f : A → Option B) (b : B)
    → o >>= f ≡ some b
    → (a : A) × (o ≡ some a) × (f a ≡ some b)
>>=-eq-some none f b e = cc
>>=-eq-some (some a) f b e = (a, refl, e)

-- The keys that an object may have.
abbrev pub known_keys : List Str
known_keys =
    codes "lcm_url"
    ∷ codes "key_prefix"
    ∷ codes "allow"
    ∷ codes "deny"
    ∷ codes "network_interface"
    ∷ codes "max_message_size"
    ∷ codes "work_thread_num"
    ∷ codes "max_block_thread_num"
    ∷ codes "__required__"
    ∷ codes "__path__"
    ∷ []

-- What a value holds, at the type of a field.
abbrev pub HasText : Value → Str → Type 0
HasText v s = v ≡ text s

abbrev pub HasUsize : Value → ℕ → Type 0
HasUsize v n = v ≡ number (some n)

abbrev pub HasOptionText : Value → Option Str → Type 0
HasOptionText v none = v ≡ null
HasOptionText v (some s) = v ≡ text s

abbrev pub HasOptionBool : Value → Option Bool → Type 0
HasOptionBool v none = v ≡ null
HasOptionBool v (some b) = v ≡ boolean b

abbrev HasTexts : Values → List Str → Type 0
HasTexts nil [] = Unit {0}
HasTexts nil (s ∷ ss) = ⊥
HasTexts (cons v vs) [] = ⊥
HasTexts (cons v vs) (s ∷ ss) = HasText v s × HasTexts vs ss

-- A path is an array of texts; one text stands for an array of it.
abbrev pub HasPath : Value → Option (List Str) → Type 0
HasPath v none = v ≡ null
HasPath v (some ss) =
    ((s : Str) × (v ≡ text s) × (ss ≡ s ∷ [])) ⊎ ((vs : Values) × (v ≡ array vs) × HasTexts vs ss)

-- A field is what the entry of its key holds, or a default where there is none.
abbrev pub Entry : {A : Type 0} → Fields → Str → A → (Value → A → Type 0) → A → Type 0
Entry fields key default Holds a =
    ((get key fields ≡ none) × (a ≡ default))
    ⊎ ((v : Value) × (get key fields ≡ some v) × Holds v a)

pub or_default_iff :
    {A : Type 0} (fields : Fields) (key : Str) (default : A) (read : Value → Option A)
    (Holds : Value → A → Type 0) (a : A)
    → ((v : Value) (b : A) → (read v ≡ some b) ↔ Holds v b)
    → (or_default (get key fields) default read ≡ some a) ↔ Entry fields key default Holds a
or_default_iff fields key default read Holds a reads = found (get key fields)
  where
    found :
        (o : Option Value)
        → (or_default o default read ≡ some a)
          ↔ (((o ≡ none) × (a ≡ default)) ⊎ ((v : Value) × (o ≡ some v) × Holds v a))
    found none = (λ e. inl (refl, cc), λ h. absent h)
      where
        absent :
            (◌≡◌ {A = Option Value} none none × (a ≡ default))
              ⊎ ((v : Value) × (none ≡ some v) × Holds v a)
            → some default ≡ some a
        absent (inl (_, same)) = ap some (sym same)
        absent (inr (v, e, _)) = cc
    found (some v) = (λ e. inr (v, refl, (reads v a).0 e), λ h. present h)
      where
        present :
            ((some v ≡ none) × (a ≡ default)) ⊎ ((w : Value) × (some v ≡ some w) × Holds w a)
            → read v ≡ some a
        present (inl (e, _)) = cc
        present (inr (w, e, h)) =
            let same : w ≡ v = cc in (reads v a).1 (subst (λ x. Holds x a) same h)

pub read_text_iff : (v : Value) (s : Str) → (read_text v ≡ some s) ↔ HasText v s
read_text_iff null s = ground arith
read_text_iff (boolean b) s = ground arith
read_text_iff (number n) s = ground arith
read_text_iff (text t) s = ground arith
read_text_iff (array vs) s = ground arith
read_text_iff (object fs) s = ground arith

pub read_usize_iff : (v : Value) (n : ℕ) → (read_usize v ≡ some n) ↔ HasUsize v n
read_usize_iff null s = ground arith
read_usize_iff (boolean b) s = ground arith
read_usize_iff (number n) s = ground arith
read_usize_iff (text t) s = ground arith
read_usize_iff (array vs) s = ground arith
read_usize_iff (object fs) s = ground arith

pub read_option_text_iff :
    (v : Value) (o : Option Str) → (read_option_text v ≡ some o) ↔ HasOptionText v o
read_option_text_iff null none = ground arith
read_option_text_iff null (some x) = ground arith
read_option_text_iff (boolean c) none = ground arith
read_option_text_iff (boolean c) (some x) = ground arith
read_option_text_iff (number n) none = ground arith
read_option_text_iff (number n) (some x) = ground arith
read_option_text_iff (text t) none = ground arith
read_option_text_iff (text t) (some x) = ground arith
read_option_text_iff (array vs) none = ground arith
read_option_text_iff (array vs) (some x) = ground arith
read_option_text_iff (object fs) none = ground arith
read_option_text_iff (object fs) (some x) = ground arith

pub read_option_bool_iff :
    (v : Value) (o : Option Bool) → (read_option_bool v ≡ some o) ↔ HasOptionBool v o
read_option_bool_iff null none = ground arith
read_option_bool_iff null (some x) = ground arith
read_option_bool_iff (boolean c) none = ground arith
read_option_bool_iff (boolean c) (some x) = ground arith
read_option_bool_iff (number n) none = ground arith
read_option_bool_iff (number n) (some x) = ground arith
read_option_bool_iff (text t) none = ground arith
read_option_bool_iff (text t) (some x) = ground arith
read_option_bool_iff (array vs) none = ground arith
read_option_bool_iff (array vs) (some x) = ground arith
read_option_bool_iff (object fs) none = ground arith
read_option_bool_iff (object fs) (some x) = ground arith

visit_seq_iff : (vs : Values) (ss : List Str) → (visit_seq vs ≡ some ss) ↔ HasTexts vs ss
visit_seq_iff nil [] = (λ e. tt, λ h. refl)
visit_seq_iff nil (s ∷ ss) = (λ e. cc, λ h. absurd h)
visit_seq_iff (cons v vs) [] = (
  λ e.
      let (t, _, e1) = >>=-eq-some (read_text v) _ [] e in
      let (ts, _, e2) = >>=-eq-some (visit_seq vs) _ [] e1 in cc,
  λ h. absurd h,
)
visit_seq_iff (cons v vs) (s ∷ ss) = (
  λ e.
      let (t, is_text, e1) = >>=-eq-some (read_text v) _ (s ∷ ss) e in
      let (ts, are_texts, e2) = >>=-eq-some (visit_seq vs) _ (s ∷ ss) e1 in
      let same : t ≡ s = cc in
      let same' : ts ≡ ss = cc in
      (
        (read_text_iff v s).0 (is_text ∙ ap some same),
        (visit_seq_iff vs ss).0 (are_texts ∙ ap some same'),
      ),
  λ (h, hs). rw ((read_text_iff v s).1 h, (visit_seq_iff vs ss).1 hs) refl,
)

-- What is neither a text nor an array holds no path.
no_path :
    {A : Type 0} (v : Value) (ss : List Str)
    → HasPath v (some ss)
    → ((s : Str) → v ≡ text s → ⊥)
    → ((vs : Values) → v ≡ array vs → ⊥)
    → A
no_path v ss (inl (s, e, _)) no_text no_array = absurd (no_text s e)
no_path v ss (inr (vs, e, _)) no_text no_array = absurd (no_array vs e)

pub deserialize_path_iff :
    (v : Value) (o : Option (List Str)) → (deserialize_path v ≡ some o) ↔ HasPath v o
unfolding deserialize_path
deserialize_path_iff null none = (λ e. refl, λ h. refl)
deserialize_path_iff null (some ss) = (λ e. cc, λ h. no_path null ss h (λ s. cc) (λ vs. cc))
deserialize_path_iff (boolean c) none = (λ e. cc, λ h. cc)
deserialize_path_iff (boolean c) (some ss) =
    (λ e. cc, λ h. no_path (boolean c) ss h (λ s. cc) (λ vs. cc))
deserialize_path_iff (number n) none = (λ e. cc, λ h. cc)
deserialize_path_iff (number n) (some ss) =
    (λ e. cc, λ h. no_path (number n) ss h (λ s. cc) (λ vs. cc))
deserialize_path_iff (text t) none = (λ e. cc, λ h. cc)
deserialize_path_iff (text t) (some ss) = (λ e. inl (t, refl, cc), one_text)
  where
    one_text : HasPath (text t) (some ss) → deserialize_path (text t) ≡ some (some ss)
    one_text (inl (s, e, all)) = cc
    one_text (inr (vs, e, _)) = cc
deserialize_path_iff (array vs) none =
    (λ e. let (ss, _, e1) = >>=-eq-some (visit_seq vs) _ none e in cc, λ h. cc)
deserialize_path_iff (array vs) (some ss) = (
  λ e.
      let (ts, are_texts, e1) = >>=-eq-some (visit_seq vs) _ (some ss) e in
      let same : ts ≡ ss = cc in inr (vs, refl, (visit_seq_iff vs ss).0 (are_texts ∙ ap some same)),
  some_texts,
)
  where
    some_texts : HasPath (array vs) (some ss) → deserialize_path (array vs) ≡ some (some ss)
    some_texts (inl (s, e, _)) = cc
    some_texts (inr (ws, e, h)) =
        let same : ws ≡ vs = cc in
        let read : visit_seq vs ≡ some ss =
          (visit_seq_iff vs ss).1 (subst (λ (x : Values). HasTexts x ss) same h) in
        rw read refl
deserialize_path_iff (object fs) none = (λ e. cc, λ h. cc)
deserialize_path_iff (object fs) (some ss) =
    (λ e. cc, λ h. no_path (object fs) ss h (λ s. cc) (λ vs. cc))

module _ (api : RegexApi) where
  -- What the filter of a value is: none for `null`, and else what its text compiles to.
  abbrev pub HasRegex : Value → Option api.Regex → Type 0
  HasRegex v none = v ≡ null
  HasRegex v (some re) = (s : Str) × (v ≡ text s) × (api.new s ≡ some re)

  deserialize_regex_iff :
      (s : Str) (o : Option api.Regex)
      → (deserialize_regex api (some s) ≡ some o) ↔ HasRegex (text s) o
  unfolding deserialize_regex
  deserialize_regex_iff s none = (λ e. compiled_none (api.new s) e, λ h. cc)
    where
      compiled_none :
          (o : Option api.Regex)
          → elim o [ none ↦ none | some re ↦ some (some re) ] ≡ some none
          → text s ≡ null
      compiled_none none e = cc
      compiled_none (some re) e = cc
  deserialize_regex_iff s (some re) = (
    λ e. (s, refl, compiled (api.new s) e),
    λ (t, e, h). let same : t ≡ s = cc in compiles (api.new s) (ap api.new (sym same) ∙ h),
  )
    where
      compiled :
          (o : Option api.Regex)
          → elim o [ none ↦ none | some r ↦ some (some r) ] ≡ some (some re)
          → o ≡ some re
      compiled none e = cc
      compiled (some r) e = cc

      compiles :
          (o : Option api.Regex)
          → o ≡ some re
          → elim o [ none ↦ none | some r ↦ some (some r) ] ≡ some (some re)
      compiles none e = cc
      compiles (some r) e = cc

  pub read_regex_iff :
      (v : Value) (o : Option api.Regex) → (read_regex api v ≡ some o) ↔ HasRegex v o
  unfolding deserialize_regex
  read_regex_iff null none = (λ e. refl, λ h. refl)
  read_regex_iff null (some re) = (λ e. cc, λ (s, e, _). cc)
  read_regex_iff (boolean c) none = (λ e. cc, λ h. cc)
  read_regex_iff (boolean c) (some re) = (λ e. cc, λ (s, e, _). cc)
  read_regex_iff (number n) none = (λ e. cc, λ h. cc)
  read_regex_iff (number n) (some re) = (λ e. cc, λ (s, e, _). cc)
  read_regex_iff (array vs) none = (λ e. cc, λ h. cc)
  read_regex_iff (array vs) (some re) = (λ e. cc, λ (s, e, _). cc)
  read_regex_iff (object fs) none = (λ e. cc, λ h. cc)
  read_regex_iff (object fs) (some re) = (λ e. cc, λ (s, e, _). cc)
  read_regex_iff (text t) o = deserialize_regex_iff t o
