-- ===== src/Session/Csrf.antt =====
-- The form token of the access request: which session it is good for.
use pg_tool_box.Common.{◌≡◌, ◌↔◌, true, some, refl, arith, Text, text_beq_iff}
use pg_tool_box.Common.Decimal.{format_int, format_int_injective, format_int-Lacks, is_digit}
use pg_tool_box.Common.Separators.{split_last_unique}
use pg_tool_box.Session.{Crypto, Codec, Data, csrf_message, csrf_token, is_valid_csrf}

-- The text that is authenticated tells the subject and the expiry, whatever stands in the subject.
pub csrf_message_injective :
    (d e : Data) → csrf_message d ≡ csrf_message e → (d.subject ≡ e.subject) × (d.expiry ≡ e.expiry)
unfolding csrf_message is_digit
csrf_message_injective d e h =
    let (p, q) =
      split_last_unique b'|' d.subject e.subject (format_int d.expiry) (format_int e.expiry)
        (format_int-Lacks d.expiry b'|' refl (omega arith))
        (format_int-Lacks e.expiry b'|' refl (omega arith)) h in
    (p, format_int_injective d.expiry e.expiry q)

-- Where hex decoding undoes hex encoding and the HMAC does not collide on the texts of the two
-- sessions, the token of session `e` is accepted for session `d` exactly when both have the same
-- subject and the same expiry.
pub csrf_binds_session :
    (k : Crypto) (c : Codec) (d e : Data)
    → ((t : Text) → k.from_hex (k.to_hex t) ≡ some t)
    → (k.mac c.primary (csrf_message d) ≡ k.mac c.primary (csrf_message e)
        → csrf_message d ≡ csrf_message e)
    → (is_valid_csrf k c d (csrf_token k c e) ≡ true)
      ↔ ((d.subject ≡ e.subject) × (d.expiry ≡ e.expiry))
unfolding is_valid_csrf csrf_token
csrf_binds_session k c d e hex apart =
    let want = k.mac c.primary (csrf_message d) in
    let got = k.mac c.primary (csrf_message e) in
    rw (is_valid_csrf, hex want, hex got)
      (
        λ h. csrf_message_injective d e (apart ((text_beq_iff want got).0 h)),
        λ h. (text_beq_iff want got).1 (unfold csrf_message in cc),
      )
