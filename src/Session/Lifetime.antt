-- ===== src/Session/Lifetime.antt =====
-- Which cookies `ReadCookie` accepts, and for how long.
use pg_tool_box.Common.{
  ◌≡◌, ◌≢◌, ◌↔◌, Bool, true, some, refl, arith, Text, ◌∷◌, [], List, length, Option-cases, inl, inr,
  text_eq, if◌then◌else◌, ◌<◌, text_beq_iff, ◌+◌,
}
use pg_tool_box.Common.Dict
use pg_tool_box.Common.Int.{ℤ, pos_part, neg_part, ltb_ℤ}
use pg_tool_box.Config.{Duration}
use pg_tool_box.Session.{
  Crypto, Json, Codec, Cookie, Data, session, expired, opened, seal, open_sealed, read_cookie,
  set_cookie, is_valid, unix,
}
use pg_tool_box.Session.Rotation.{SealLaws, open_sealed-seal, IsAuthentic, open_sealed_sound}

-- `a` is an earlier second than `b`.
abbrev pub Before : ℤ → ℤ → Type 0
Before a b = pos_part a + neg_part b < pos_part b + neg_part a

pub is_valid_iff :
    (now : ℤ) (d : Data) → (is_valid now d ≡ true) ↔ ((d.subject ≢ []) × Before (unix now) d.expiry)
unfolding is_valid
is_valid_iff now d = ground arith

module _ (k : Crypto) (j : Json Data) where
  -- An accepted session stands in a cookie that a configured key decrypts, names a subject and has
  -- not expired.
  pub read_cookie_sound :
      (c : Codec) (now : ℤ) (cookies : List (Text × Text)) (name : Text) (d : Data)
      → read_cookie k j c now cookies name ≡ session d
      → (value : Text) × (Dict.lookup name cookies ≡ some value)
        × IsAuthentic k j c value d
        × (d.subject ≢ [])
        × Before (unix now) d.expiry
  unfolding read_cookie
  read_cookie_sound c now cookies name d h = elim (Option-cases (Dict.lookup name cookies)) [
    | inl e ↦ absurd (ground arith)
    | inr (value, e) ↦
        let o : open_sealed k j c value ≡ opened d = ground arith in
        let v = (is_valid_iff now d).0 (ground arith) in
        (value, e, open_sealed_sound k j c value d o, v.0, v.1)
  ]

  -- The cookie of a sealed session with a subject, sent back at any later time: the session is
  -- accepted before its expiry, and from then on it is refused as expired.
  pub set_cookie_lifetime :
      (c : Codec) (nonce : Text) (name : Text) (secure : Bool) (max_age : Duration) (d : Data)
      (cookie : Cookie) (later : ℤ) (others : List (Text × Text))
      → SealLaws k
      → j.unmarshal (j.marshal d) ≡ some d
      → length nonce ≡ k.nonce_size
      → d.subject ≢ []
      → set_cookie k j c (some nonce) name secure max_age d ≡ some cookie
      → read_cookie k j c later ((cookie.name, cookie.value) ∷ others) name
        ≡ (if ltb_ℤ (unix later) d.expiry then session d else expired)
  unfolding read_cookie set_cookie Dict.lookup is_valid
  set_cookie_lifetime c nonce name secure max_age d cookie later others laws json sized named set =
      let same : cookie.name ≡ name = ground arith in
      let sealed : seal k j c (some nonce) d ≡ some cookie.value = ground arith in
      let back =
        open_sealed-seal k j c c nonce d cookie.value [] c.others laws json sized refl tt sealed in
      ground (arith, text_beq_iff cookie.name name)
