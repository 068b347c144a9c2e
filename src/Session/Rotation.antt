-- ===== src/Session/Rotation.antt =====
-- Sealing and opening, across a rotation of the keys.
use mathlib.Core.Path.{subst}
use pg_tool_box.Common.{
  ◌≡◌, Option, none, some, sym, refl, arith, Text, ◌∷◌, [], List, ◌++◌, length, All, Member,
  Member.head, Member.tail, Option-cases, inl, inr,
}
use pg_tool_box.Session.{
  Crypto, Json, Codec, keys, opened, seal, cut_at, open_payload, try_keys, open_sealed,
}

-- What the code relies on: decoding undoes encoding, and an AES-GCM text opens under its own key.
pub record SealLaws (k : Crypto) : Type 0 where
  pub decode-encode : (t : Text) → k.decode (k.encode t) ≡ some t
  pub opens_own :
      (key nonce plain : Text) → k.aead_open key nonce (k.aead_seal key nonce plain) ≡ some plain

cut_at-append : (a b : Text) → cut_at (length a) (a ++ b) ≡ some (a, b)
unfolding cut_at
cut_at-append [] b = refl
cut_at-append (c ∷ a) b = ground (arith, cut_at-append a b)

module _ (k : Crypto) {V : Type 0} (j : Json V) where
  -- No earlier key opens the text, and the next one does.
  try_keys-skip :
      (nonce ct plain key : Text) (before after : List Text) (v : V)
      → All (λ other. k.aead_open other nonce ct ≡ none) before
      → k.aead_open key nonce ct ≡ some plain
      → j.unmarshal plain ≡ some v
      → try_keys k j (some (nonce, ct)) (before ++ key ∷ after) ≡ opened v
  unfolding try_keys
  try_keys-skip nonce ct plain key [] after v h o u = ground arith
  try_keys-skip nonce ct plain key (b ∷ before) after v h o u =
      ground (arith, try_keys-skip nonce ct plain key before after v h.1 o u)

  -- A payload sealed under one codec opens under every codec that still lists its key, if no key
  -- listed before that opens it by accident.
  pub open_sealed-seal :
      (c c' : Codec) (nonce : Text) (v : V) (s : Text) (before after : List Text)
      → SealLaws k
      → j.unmarshal (j.marshal v) ≡ some v
      → length nonce ≡ k.nonce_size
      → keys c' ≡ before ++ c.primary ∷ after
      → All (λ key. k.aead_open key nonce (k.aead_seal c.primary nonce (j.marshal v)) ≡ none) before
      → seal k j c (some nonce) v ≡ some s
      → open_sealed k j c' s ≡ opened v
  unfolding seal open_sealed
  open_sealed-seal c c' nonce v s before after laws json sized listed strange sealed =
      let ct = k.aead_seal c.primary nonce (j.marshal v) in
      let cut : cut_at k.nonce_size (nonce ++ ct) ≡ some (nonce, ct) =
        rw (← sized) (cut_at-append nonce ct) in
      let dec : k.decode s ≡ some (nonce ++ ct) =
        ground (arith, laws.decode-encode (nonce ++ ct)) in
      rw (open_sealed, dec, cut)
        (subst (λ l. try_keys k j (some (nonce, ct)) l ≡ opened v) (sym listed)
          (try_keys-skip nonce ct (j.marshal v) c.primary before after v strange
            (laws.opens_own c.primary nonce (j.marshal v)) json))

-- A cookie value that is backed by a configured key.
pub record IsAuthentic (k : Crypto) {V : Type 0} (j : Json V) (c : Codec) (s : Text) (v : V)
    : Type 0 where
  pub key : Text
  pub listed : Member key (keys c)
  pub nonce : Text
  pub ct : Text
  pub plain : Text
  pub raw : Text
  pub decoded : k.decode s ≡ some raw
  pub split : cut_at k.nonce_size raw ≡ some (nonce, ct)
  pub decrypts : k.aead_open key nonce ct ≡ some plain
  pub payload : j.unmarshal plain ≡ some v

module _ (k : Crypto) {V : Type 0} (j : Json V) where
  record Found (cut : Option (Text × Text)) (l : List Text) (v : V) : Type 0 where
    key : Text
    listed : Member key l
    nonce : Text
    ct : Text
    plain : Text
    split : cut ≡ some (nonce, ct)
    decrypts : k.aead_open key nonce ct ≡ some plain
    payload : j.unmarshal plain ≡ some v

  open_payload_inv :
      (plain : Text) (v : V) → open_payload k j plain ≡ opened v → j.unmarshal plain ≡ some v
  unfolding open_payload
  open_payload_inv plain v h = ground arith

  Found-tail :
      {cut : Option (Text × Text)} {key : Text} {l : List Text} {v : V}
      → Found cut l v
      → Found cut (key ∷ l) v
  Found-tail f = record {
    key = f.key;
    listed = tail f.listed;
    nonce = f.nonce;
    ct = f.ct;
    plain = f.plain;
    split = f.split;
    decrypts = f.decrypts;
    payload = f.payload;
  }

  try_keys_sound :
      (cut : Option (Text × Text)) (l : List Text) (v : V)
      → try_keys k j cut l ≡ opened v
      → Found cut l v
  unfolding try_keys
  try_keys_sound cut [] v h = cc
  try_keys_sound none (key ∷ l) v h = cc
  try_keys_sound (some (nonce, ct)) (key ∷ l) v h = elim (Option-cases (k.aead_open key nonce ct)) [
    | inl e ↦ Found-tail (try_keys_sound (some (nonce, ct)) l v (ground arith))
    | inr (plain, e) ↦ record {
      key = key;
      listed = head;
      nonce = nonce;
      ct = ct;
      plain = plain;
      split = refl;
      decrypts = e;
      payload = open_payload_inv plain v (ground arith);
    }
  ]

  -- Whatever `Open` accepts was decrypted with a configured key.
  pub open_sealed_sound :
      (c : Codec) (s : Text) (v : V) → open_sealed k j c s ≡ opened v → IsAuthentic k j c s v
  unfolding open_sealed
  open_sealed_sound c s v h = elim (Option-cases (k.decode s)) [
    | inl e ↦ absurd (ground arith)
    | inr (raw, e) ↦
        let f = try_keys_sound (cut_at k.nonce_size raw) (keys c) v (ground arith) in
        record {
          key = f.key;
          listed = f.listed;
          nonce = f.nonce;
          ct = f.ct;
          plain = f.plain;
          raw = raw;
          decoded = e;
          split = f.split;
          decrypts = f.decrypts;
          payload = f.payload;
        }
  ]
