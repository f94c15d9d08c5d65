-- ===== src/Packet/Verify.antt =====
-- VerifyPacket against the grammar of a framed packet.
use gdbserver.Base.{
  subst, ◌==◌, guard, ◌>>◌, inr, ◌>>=◌, inl, ◌↔◌, Option-cases, Option, take-append,
  get_elem?-append, ℕ, ◌+◌, ◌-◌, ◌≡◌, refl, some, [], ◌∷◌, ◌++◌, Bytes, length, arith, get_elem?,
  substr, drop-append, length-append, append_assoc,
}
use gdbserver.Hex.{decode_byte_string}
use gdbserver.Packet.{find_unescaped_char, checksum, verify_from_dollar, verify_packet}
use gdbserver.Packet.Scan.{find_unescaped_sound, escaped, Skips, plain, find_unescaped_complete}

-- `junk $ payload # h l`: text up to the first dollar sign, the payload, and the two digits of its
-- checksum.
pub record IsFramed (packet payload : Bytes) : Type 0 where
  pub junk : Bytes
  pub h : ℕ
  pub l : ℕ
  pub layout : packet ≡ junk ++ b'$' ∷ (payload ++ b'#' ∷ h ∷ l ∷ [])
  pub no_dollar : Skips b'$' junk
  pub no_pound : Skips b'#' payload
  pub sum : decode_byte_string h l ≡ some (checksum payload)

module _ (payload : Bytes) (h l : ℕ) where
  -- The packet from its dollar sign on.
  abbrev pub framed : Bytes
  framed = b'$' ∷ (payload ++ b'#' ∷ h ∷ l ∷ [])

  length-framed : length framed ≡ length payload + 4
  length-framed = omega (arith, length-append payload (b'#' ∷ h ∷ l ∷ []))

  framed-payload : substr framed 1 (length (b'$' ∷ payload) - 1) ≡ payload
  framed-payload = take-append _ payload _ (omega arith)

  framed-high : get_elem? framed (length (b'$' ∷ payload) + 1) ≡ some h
  framed-high = rw (← append_assoc payload (b'#' ∷ []) (h ∷ l ∷ [])) (
      get_elem?-append _ (b'$' ∷ (payload ++ b'#' ∷ [])) (l ∷ []) h
        (omega (arith, length-append payload (b'#' ∷ []))))

  framed-low : get_elem? framed (length (b'$' ∷ payload) + 2) ≡ some l
  framed-low = rw (← append_assoc payload (b'#' ∷ h ∷ []) (l ∷ [])) (
      get_elem?-append _ (b'$' ∷ (payload ++ b'#' ∷ h ∷ [])) [] l
        (omega (arith, length-append payload (b'#' ∷ h ∷ []))))

  -- The rest of the check, once the packet has the layout.
  abbrev pub check : Option Bytes
  check = do
    received_checksum ← decode_byte_string h l
    guard (checksum payload == received_checksum)
    some payload

  from_dollar_framed : Skips b'#' payload → verify_from_dollar framed ≡ check
  unfolding verify_from_dollar
  from_dollar_framed s = ground (
    arith,
    find_unescaped_complete b'#' (h ∷ l ∷ []) (omega arith)
        (plain b'$' (omega arith) (omega arith) s),
    length-framed,
    framed-payload,
    framed-high,
    framed-low,
  )

  -- A framed packet is accepted or refused by its checksum alone.
  pub verify_framed :
      (junk : Bytes) → Skips b'$' junk → Skips b'#' payload → verify_packet (junk ++ framed) ≡ check
  unfolding verify_packet
  verify_framed junk n s = ground (
    arith,
    find_unescaped_complete b'$' {xs = junk} (payload ++ b'#' ∷ h ∷ l ∷ []) (omega arith) n,
    drop-append (length junk) junk framed refl,
    from_dollar_framed s,
    length-append junk framed,
  )

  verify_complete :
      (junk : Bytes)
      → Skips b'$' junk
      → Skips b'#' payload
      → decode_byte_string h l ≡ some (checksum payload)
      → verify_packet (junk ++ framed) ≡ some payload
  verify_complete junk n s e = ground (arith, verify_framed junk n s)

-- The payload and the checksum of what is behind an unescaped pound sign.
abbrev Splits : Bytes → Bytes → Bytes → Type 0
Splits payload rest d =
    (h : ℕ) × (l : ℕ) × (rest ≡ h ∷ l ∷ [])
    × (payload ≡ d)
    × (decode_byte_string h l ≡ some (checksum d))

module _ (payload : Bytes) (s : Skips b'#' payload) (d : Bytes) where
  two_digits :
      (h l : ℕ)
      → verify_from_dollar (b'$' ∷ (payload ++ b'#' ∷ h ∷ l ∷ [])) ≡ some d
      → Splits payload (h ∷ l ∷ []) d
  two_digits h l v = elim (Option-cases (decode_byte_string h l)) [
    | inl e ↦ absurd (ground (arith, from_dollar_framed payload h l s))
    | inr (b, e) ↦ (
      h,
      l,
      refl,
      ground (arith, from_dollar_framed payload h l s),
      ground (arith, from_dollar_framed payload h l s),
    )
  ]

  split_sound :
      (rest : Bytes)
      → verify_from_dollar (b'$' ∷ (payload ++ b'#' ∷ rest)) ≡ some d
      → Splits payload rest d
  unfolding verify_from_dollar
  split_sound (h ∷ l ∷ []) v = two_digits h l v
  split_sound rest v = absurd (
      ground (
        arith,
        find_unescaped_complete b'#' rest (omega arith) (plain b'$' (omega arith) (omega arith) s),
        take-append (length payload) payload (b'#' ∷ rest) refl,
        length-append payload (b'#' ∷ rest),
      ))

-- What a dollar sign and the text up to an unescaped pound sign are made of.
behind_dollar :
    (pre post rest : Bytes)
    → b'$' ∷ rest ≡ pre ++ b'#' ∷ post
    → Skips b'#' pre
    → (payload : Bytes) × (rest ≡ payload ++ b'#' ∷ post) × Skips b'#' payload
behind_dollar [] post rest e s = absurd (ground arith)
behind_dollar (c ∷ payload) post rest e (plain _ a b s) = (payload, ground arith, s)
behind_dollar (c ∷ x ∷ payload) post rest e (escaped _ _ q s) = absurd (ground arith)

from_dollar_sound :
    (rest d : Bytes)
    → verify_from_dollar (b'$' ∷ rest) ≡ some d
    → (h : ℕ) × (l : ℕ) × (rest ≡ d ++ b'#' ∷ h ∷ l ∷ [])
      × Skips b'#' d
      × (decode_byte_string h l ≡ some (checksum d))
from_dollar_sound rest d v = elim (Option-cases (find_unescaped_char b'#' (b'$' ∷ rest))) [
  | inl e ↦ absurd (unfold verify_from_dollar in ground arith)
  | inr (j, e) ↦
      let (pre, post, eq, sk, at) = find_unescaped_sound b'#' (b'$' ∷ rest) j e in
      let (payload, eq', sk') = behind_dollar pre post rest eq sk in
      let v' : verify_from_dollar (b'$' ∷ (payload ++ b'#' ∷ post)) ≡ some d = rw eq' at v in
      let (h, l, two, same, sum) = split_sound payload sk' d post v' in
      (h, l, cc, subst (Skips b'#') same sk', sum)
]

verify_sound : (packet d : Bytes) → verify_packet packet ≡ some d → IsFramed packet d
unfolding verify_packet
verify_sound packet d v = elim (Option-cases (find_unescaped_char b'$' packet)) [
  | inl e ↦ absurd (ground arith)
  | inr (j, e) ↦
      let (pre, post, eq, sk, at) = find_unescaped_sound b'$' packet j e in
      let (h, l, eq', sk', sum) =
        from_dollar_sound post d (ground (arith, drop-append j pre (b'$' ∷ post))) in
      record { junk = pre; h = h; l = l; layout = cc; no_dollar = sk; no_pound = sk'; sum = sum }
]

-- A packet is accepted with a payload exactly when it is framed: text up to the first unescaped
-- dollar sign, the payload up to the first unescaped pound sign, and two digits, which are the
-- last two bytes and spell the sum of the payload's bytes modulo 256.
pub verify_iff : (packet d : Bytes) → (verify_packet packet ≡ some d) ↔ IsFramed packet d
verify_iff packet d = (
  verify_sound packet d,
  λ f. rw f.layout (verify_complete d f.h f.l f.junk f.no_dollar f.no_pound f.sum),
)
