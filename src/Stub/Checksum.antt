-- ===== src/Stub/Checksum.antt =====
-- `packet_csum_verify` against the framing of `conn_send_pktstr`.
use Prim.Native.Nat.{bit_and}
use mini_gdbstub.Base.{
  ℕ, ◌+◌, ◌-◌, ◌/◌, ◌%◌, ◌<◌, ◌≡◌, refl, sym, ap, ap₂, ◌∙◌, subst, true, some, List, [], ◌∷◌, ◌++◌,
  arith, length, drop, ◌==◌, ==_refl, ==_iff, passes_to, passes_to_lem, take-all, append_assoc,
  drop-append, length-append, Lacks,
}
use mini_gdbstub.Csum.{compute_checksum}
use mini_gdbstub.Csum.Laws.{total, checksum-append, checksum-lt, checksum-total}
use mini_gdbstub.Translate.{hexchar, hex_digits, str_to_hex}
use mini_gdbstub.Translate.HexRoundTrip.{str_to_hex-hex_digits}
use mini_gdbstub.Conn.{packet_text}
use mini_gdbstub.Packet.{Packet, Pktbuf, csum_size}
use mini_gdbstub.Packet.Fill.{contents}
use mini_gdbstub.Packet.Extract.{packet_of}
use mini_gdbstub.Packet.Delivery.{IsIdle, Delivers, deliver_alone}
use mini_gdbstub.Stub.Dispatch.{packet_csum_verify, csum_matches}

low_table : passes_to (λ d. bit_and d 0xf == d % 16) 255 ≡ true
unfolding passes_to
low_table = refl

low : (d : ℕ) → d < 256 → bit_and d 0xf ≡ d % 16
low d h =
    (==_iff _ _).0 (passes_to_lem (λ x. bit_and x 0xf == x % 16) 255 d low_table (omega arith))

digits_read :
    (d : ℕ) (rest : List ℕ)
    → d < 256
    → str_to_hex (hexchar (d / 16) ∷ hexchar (d % 16) ∷ rest) 1 ≡ some (d ∷ [])
unfolding hex_digits
digits_read d rest h = rw (← low d h) (str_to_hex-hex_digits (d ∷ []) rest (h, tt))

-- Where the digits lie in the packet.
digits_place :
    (body : List ℕ) (c1 c2 : ℕ)
    → drop (length body + 3 - csum_size + 1) (packet_of body c1 c2).content ≡ c1 ∷ c2 ∷ 0 ∷ []
digits_place body c1 c2 =
    let head = b'$' ∷ (body ++ (b'#' ∷ [])) in
    let n : length body + 3 - csum_size + 1 ≡ length head =
      omega (arith, length-append body (b'#' ∷ [])) in
    let split : (packet_of body c1 c2).content ≡ head ++ (c1 ∷ c2 ∷ 0 ∷ []) = ap (◌∷◌ b'$') (
      append_assoc body (b'#' ∷ c1 ∷ c2 ∷ []) (0 ∷ [])
      ∙ sym (append_assoc body (b'#' ∷ []) (c1 ∷ c2 ∷ 0 ∷ []))) in
    rw n (
      subst (λ xs. drop (length head) xs ≡ c1 ∷ c2 ∷ 0 ∷ []) (sym split)
        (drop-append head (c1 ∷ c2 ∷ 0 ∷ [])))

sum_of :
    (body : List ℕ) (c1 c2 : ℕ)
    → compute_checksum (drop 1 (packet_of body c1 c2).content) (length body + 3 - csum_size - 1)
      ≡ total body % 256
sum_of body c1 c2 =
    let n : length body + 3 - csum_size - 1 ≡ length body = omega arith in
    rw n (
      ap (λ xs. compute_checksum xs (length body))
        (append_assoc body (b'#' ∷ c1 ∷ c2 ∷ []) (0 ∷ []))
      ∙ checksum-append body (b'#' ∷ c1 ∷ c2 ∷ 0 ∷ []))

-- A packet whose digits stand for the byte `d` is accepted exactly if its text sums up to `d`
-- modulo 256.
pub packet_csum_verify_lem :
    (body : List ℕ) (d : ℕ)
    → d < 256
    → packet_csum_verify (packet_of body (hexchar (d / 16)) (hexchar (d % 16)))
      ≡ some (total body % 256 == d)
unfolding packet_csum_verify
packet_csum_verify_lem body d h =
    ap₂ csum_matches (sum_of body (hexchar (d / 16)) (hexchar (d % 16))) (
      ap (λ xs. str_to_hex xs 1) (digits_place body (hexchar (d / 16)) (hexchar (d % 16)))
      ∙ digits_read d (0 ∷ []) h)

-- The text that `conn_send_pktstr` puts on the wire for a body without `#`, arriving alone in a
-- waiting buffer behind bytes without a `$`, is taken out as one packet with that text, which
-- passes the checksum.
pub packet_text-accepted :
    (b : Pktbuf) (junk body : List ℕ)
    → IsIdle b
    → contents b ≡ junk ++ packet_text body
    → Lacks b'$' junk
    → Lacks b'#' body
    → (p : Packet) × Delivers b p []
      × (p.content ≡ packet_text body ++ (0 ∷ []))
      × (packet_csum_verify p ≡ some true)
unfolding packet_text
packet_text-accepted b junk body idle bytes no_head no_end =
    let d = compute_checksum body (length body) in
    let small : d < 256 = checksum-lt body (length body) in
    let sum : total body % 256 ≡ d = sym (
      checksum-total body (length body)
      ∙ ap (λ xs. total xs % 256) (take-all (length body) body (omega arith))) in
    (
      packet_of body (hexchar (d / 16)) (hexchar (d % 16)),
      deliver_alone b junk body (hexchar (d / 16)) (hexchar (d % 16)) idle
          (record { bytes = bytes; no_head = no_head; no_end = no_end }),
      refl,
      packet_csum_verify_lem body d small ∙ ap some (rw sum (==_refl d)),
    )
