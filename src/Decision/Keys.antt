-- ===== src/Decision/Keys.antt =====
-- decision/control.go: the key of a choice tells choices apart.
use mathlib.Core.List.{append_assoc, append-nil}
use d_raft.Base.{
  ℕ, zero, suc, ◌<◌, ◌≡◌, refl, sym, ap, ◌∙◌, List, [], ◌∷◌, ◌++◌, arith, length, u64,
}
use d_raft.Decision.Choice.{Choice, Codec, encoded, canonical_choice}
use d_raft.Decision.Control.{big_endian, append_key_field, key_of, keyed, key_encoded, choice_key}

-- Eight digits in base 256 tell 64-bit numbers apart.
big_endian_injective : (n m : ℕ) → n < u64 → m < u64 → big_endian 8 n ≡ big_endian 8 m → n ≡ m
unfolding big_endian
big_endian_injective n m hn hm h = ground arith

append_split {ℓ} :
    {A : Type ℓ} (a b x y : List A) → length a ≡ length b → a ++ x ≡ b ++ y → (a ≡ b) × (x ≡ y)
append_split [] [] x y same h = (refl, h)
append_split (c ∷ a) (d ∷ b) x y same h =
    let (start, rest) = append_split a b x y (omega arith) (cc h) in (cc (h, start), rest)
append_split [] (d ∷ b) x y same h = absurd (omega arith)
append_split (c ∷ a) [] x y same h = absurd (omega arith)

length-big_endian : (count n : ℕ) → length (big_endian count n) ≡ count
unfolding big_endian
length-big_endian zero n = refl
length-big_endian (suc count) n = ap suc (length-big_endian count n)

-- A field that begins with its length ends where it ends.
field_split :
    (f g x y : List ℕ)
    → length f < u64
    → length g < u64
    → big_endian 8 (length f) ++ (f ++ x) ≡ big_endian 8 (length g) ++ (g ++ y)
    → (f ≡ g) × (x ≡ y)
field_split f g x y hf hg h =
    let (digits, rest) =
      append_split (big_endian 8 (length f)) (big_endian 8 (length g)) (f ++ x) (g ++ y)
        (length-big_endian 8 (length f) ∙ sym (length-big_endian 8 (length g))) h in
    append_split f g x y (big_endian_injective (length f) (length g) hf hg digits) rest

-- The fields that a key joins.
abbrev joined : List (List ℕ) → List ℕ
joined [] = []
joined (f ∷ fs) = big_endian 8 (length f) ++ (f ++ joined fs)

append_key_field-joined : (d f : List ℕ) → append_key_field d f ≡ d ++ joined (f ∷ [])
unfolding append_key_field
append_key_field-joined d f =
    append_assoc d (big_endian 8 (length f)) f
    ∙ ap (λ l. d ++ (big_endian 8 (length f) ++ l)) (sym (append-nil f))

joined-append : (fs gs : List (List ℕ)) → joined (fs ++ gs) ≡ joined fs ++ joined gs
joined-append [] gs = refl
joined-append (f ∷ fs) gs =
    ap (λ l. big_endian 8 (length f) ++ (f ++ l)) (joined-append fs gs)
    ∙ ap (λ l. big_endian 8 (length f) ++ l) (sym (append_assoc f (joined fs) (joined gs)))
    ∙ sym (append_assoc (big_endian 8 (length f)) (f ++ joined fs) (joined gs))

append_key_field_snoc :
    (fs : List (List ℕ)) (f : List ℕ) → append_key_field (joined fs) f ≡ joined (fs ++ f ∷ [])
append_key_field_snoc fs f = append_key_field-joined (joined fs) f ∙ sym (joined-append fs (f ∷ []))

key_of-joined :
    (codec : Codec) (c : Choice) (domain context : List ℕ)
    → key_of codec c domain context
      ≡ joined (codec.bytes c.id ∷ codec.bytes c.kind ∷ domain ∷ context ∷ [])
unfolding key_of
key_of-joined codec c domain context =
    let id = codec.bytes c.id in
    let kind = codec.bytes c.kind in
    ap (λ l. append_key_field (append_key_field (append_key_field l kind) domain) context)
      (append_key_field_snoc [] id)
    ∙ ap (λ l. append_key_field (append_key_field l domain) context)
        (append_key_field_snoc (id ∷ []) kind)
    ∙ ap (λ l. append_key_field l context) (append_key_field_snoc (id ∷ kind ∷ []) domain)
    ∙ append_key_field_snoc (id ∷ kind ∷ domain ∷ []) context

-- The lengths of a key's fields are 64-bit numbers.
abbrev pub Fits : Codec → Choice → List ℕ → List ℕ → Type 0
Fits codec c domain context =
    (length (codec.bytes c.id) < u64)
    × (length (codec.bytes c.kind) < u64)
    × (length domain < u64)
    × (length context < u64)

key_of_injective :
    (codec : Codec) (a b : Choice) (d x d' x' : List ℕ)
    → Fits codec a d x
    → Fits codec b d' x'
    → key_of codec a d x ≡ key_of codec b d' x'
    → (codec.bytes a.id ≡ codec.bytes b.id)
      × (codec.bytes a.kind ≡ codec.bytes b.kind)
      × (d ≡ d')
      × (x ≡ x')
key_of_injective codec a b d x d' x' fa fb h =
    let same = sym (key_of-joined codec a d x) ∙ h ∙ key_of-joined codec b d' x' in
    let (ids, after_id) = field_split (codec.bytes a.id) (codec.bytes b.id) _ _ fa.0 fb.0 same in
    let (kinds, after_kind) =
      field_split (codec.bytes a.kind) (codec.bytes b.kind) _ _ fa.1 fb.1 after_id in
    let (domains, after_domain) = field_split d d' _ _ fa.2 fb.2 after_kind in
    let (contexts, _) = field_split x x' [] [] fa.3 fb.3 after_domain in
    (ids, kinds, domains, contexts)

-- Two choices with one key have the same identifier and kind, byte for byte, the same canonical domain
-- and the same canonical context. The lengths of these are 64-bit numbers.
pub choice_key_injective :
    (codec : Codec) (a b : Choice) (d x d' x' key : List ℕ)
    → canonical_choice codec a ≡ encoded d x
    → canonical_choice codec b ≡ encoded d' x'
    → Fits codec a d x
    → Fits codec b d' x'
    → choice_key codec a ≡ keyed key
    → choice_key codec b ≡ keyed key
    → (codec.bytes a.id ≡ codec.bytes b.id)
      × (codec.bytes a.kind ≡ codec.bytes b.kind)
      × (d ≡ d')
      × (x ≡ x')
unfolding choice_key key_encoded
choice_key_injective codec a b d x d' x' key ea eb fa fb ka kb =
    key_of_injective codec a b d x d' x' fa fb (key_is a d x ea ka ∙ sym (key_is b d' x' eb kb))
  where
    key_is :
        (c : Choice) (y z : List ℕ)
        → canonical_choice codec c ≡ encoded y z
        → choice_key codec c ≡ keyed key
        → key_of codec c y z ≡ key
    key_is c y z e k = cc (ap (key_encoded codec c) e, k)
