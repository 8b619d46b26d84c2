-- ===== src/Pcep/Tlv/RoundTrip/Addresses.antt =====
-- The LSP identifiers TLVs of pkg/packet/pcep/tlv.go are read back from what their serializers write.
use mathlib.Core.List.{append-nil, append_assoc}
use pce_testing.Base.{
  ℕ, ◌≡◌, refl, sym, ap, ◌∙◌, List, [], ◌++◌, arith, ok, length, drop, length-append, drop-append,
}
use pce_testing.Base.Bytes.{
  slice, read16, read32, put16, put32, put16_read, put32_read, IsU16, IsU32,
}
use pce_testing.Net.{as_slice}
use pce_testing.Pcep.Wire.{TlvError}
use pce_testing.Pcep.Tlv.Types.{
  Ipv4LspIdentifiers, Ipv6LspIdentifiers, ipv4_lsp_identifiers, ipv6_lsp_identifiers,
}
use pce_testing.Pcep.Tlv.Read.{decode_ipv4_lsp_identifiers, decode_ipv6_lsp_identifiers}
use pce_testing.Pcep.Tlv.Write.{serialize_ipv4_lsp_identifiers, serialize_ipv6_lsp_identifiers}
use pce_testing.Pcep.Tlv.Serialize.{serialize}
use pce_testing.Pcep.Tlv.Sequence.{decode_known}
use pce_testing.Pcep.Tlv.RoundTrip.WellFormed.{IsV4, IsV6}
use pce_testing.Pcep.Tlv.RoundTrip.Frame.{unpadded, fixed_value_put}
use pce_testing.Pcep.Tlv.RoundTrip.Reads.{Sub, Reads, unpadded-Reads}
use pce_testing.Pcep.Tlv.RoundTrip.Fields.{
  drop-append_more, copy_into_all, slice_part, after16, v4_kept, v6_kept, framed_eq,
}

-- The value of an IPv4 TLV, by its fields.
module _ (s e : List ℕ) (lsp tunnel ext : ℕ) where
  abbrev value4 : List ℕ
  value4 = s ++ (put16 lsp ++ (put16 tunnel ++ (put32 ext ++ e)))

  length-value4 : length s ≡ 4 → length e ≡ 4 → length value4 ≡ 16
  unfolding put16 put32
  length-value4 hs he =
      omega (arith, length-append s (put16 lsp ++ (put16 tunnel ++ (put32 ext ++ e))))

  sender4 : length s ≡ 4 → slice {E = TlvError} value4 0 4 ≡ ok s
  sender4 hs =
      slice_part [] s (put16 lsp ++ (put16 tunnel ++ (put32 ext ++ e))) 0 4 refl (omega arith)

  lsp4 : length s ≡ 4 → IsU16 lsp → read16 {E = TlvError} (drop 4 value4) ≡ ok lsp
  lsp4 hs h =
      rw (drop-append s (put16 lsp ++ (put16 tunnel ++ (put32 ext ++ e))) 4 hs) (put16_read lsp _ h)

  tunnel4 : length s ≡ 4 → IsU16 tunnel → read16 {E = TlvError} (drop 6 value4) ≡ ok tunnel
  tunnel4 hs h =
      rw (drop-append_more s (put16 lsp ++ (put16 tunnel ++ (put32 ext ++ e))) 4 2 6 hs refl)
        (rw (after16 lsp (put16 tunnel ++ (put32 ext ++ e)) 0) (put16_read tunnel _ h))

  ext4 : length s ≡ 4 → IsU32 ext → read32 {E = TlvError} (drop 8 value4) ≡ ok ext
  ext4 hs h =
      rw (drop-append_more s (put16 lsp ++ (put16 tunnel ++ (put32 ext ++ e))) 4 4 8 hs refl) (
        rw (after16 lsp (put16 tunnel ++ (put32 ext ++ e)) 2)
          (rw (after16 tunnel (put32 ext ++ e) 0) (put32_read ext _ h)))

  abbrev before_endpoint4 : List ℕ
  before_endpoint4 = s ++ (put16 lsp ++ (put16 tunnel ++ put32 ext))

  regroup4 : before_endpoint4 ++ (e ++ []) ≡ value4
  unfolding put16 put32
  regroup4 =
      append_assoc s (put16 lsp ++ (put16 tunnel ++ put32 ext)) (e ++ [])
      ∙ ap (λ r. s ++ (put16 lsp ++ (put16 tunnel ++ (put32 ext ++ r)))) (append-nil e)

  endpoint4 : length s ≡ 4 → length e ≡ 4 → slice {E = TlvError} value4 12 16 ≡ ok e
  unfolding put16 put32
  endpoint4 hs he =
      ap (λ v. slice {E = TlvError} v 12 16) (sym regroup4)
      ∙ slice_part before_endpoint4 e [] 12 16
          (omega (arith, length-append s (put16 lsp ++ (put16 tunnel ++ put32 ext)))) (omega arith)

decode_ipv4_put :
    (t : Ipv4LspIdentifiers)
    → IsV4 t.ipv4_tunnel_sender_address
    → IsV4 t.ipv4_tunnel_endpoint_address
    → IsU16 t.lsp_id
    → IsU16 t.tunnel_id
    → IsU32 t.extended_tunnel_id
    → decode_ipv4_lsp_identifiers (
        unpadded 0x12 (
          value4
            (as_slice t.ipv4_tunnel_sender_address)
            (as_slice t.ipv4_tunnel_endpoint_address)
            t.lsp_id
            t.tunnel_id
            t.extended_tunnel_id))
      ≡ ok t
unfolding decode_ipv4_lsp_identifiers
decode_ipv4_put t hs he hl ht hx =
    let s = as_slice t.ipv4_tunnel_sender_address in
    let e = as_slice t.ipv4_tunnel_endpoint_address in
    let (ls, ks) = v4_kept t.ipv4_tunnel_sender_address hs in
    let (le, ke) = v4_kept t.ipv4_tunnel_endpoint_address he in
    rw
      (fixed_value_put 0x12 (value4 s e t.lsp_id t.tunnel_id t.extended_tunnel_id) 16
        (length-value4 s e t.lsp_id t.tunnel_id t.extended_tunnel_id ls le) (omega arith))
      (rw (sender4 s e t.lsp_id t.tunnel_id t.extended_tunnel_id ls) (
        rw (lsp4 s e t.lsp_id t.tunnel_id t.extended_tunnel_id ls hl) (
          rw (tunnel4 s e t.lsp_id t.tunnel_id t.extended_tunnel_id ls ht) (
            rw (ext4 s e t.lsp_id t.tunnel_id t.extended_tunnel_id ls hx) (
              rw (endpoint4 s e t.lsp_id t.tunnel_id t.extended_tunnel_id ls le) (λ i. ok (record {
                ipv4_tunnel_sender_address = ks i;
                ipv4_tunnel_endpoint_address = ke i;
                lsp_id = t.lsp_id;
                tunnel_id = t.tunnel_id;
                extended_tunnel_id = t.extended_tunnel_id;
              })))))))

-- The value of an IPv6 TLV, by its fields.
module _ (s x e : List ℕ) (lsp tunnel : ℕ) where
  abbrev value6 : List ℕ
  value6 = s ++ (put16 lsp ++ (put16 tunnel ++ (x ++ e)))

  length-value6 : length s ≡ 16 → length x ≡ 16 → length e ≡ 16 → length value6 ≡ 52
  unfolding put16
  length-value6 hs hx he =
      omega (arith, length-append s (put16 lsp ++ (put16 tunnel ++ (x ++ e))), length-append x e)

  sender6 : length s ≡ 16 → slice {E = TlvError} value6 0 16 ≡ ok s
  sender6 hs = slice_part [] s (put16 lsp ++ (put16 tunnel ++ (x ++ e))) 0 16 refl (omega arith)

  lsp6 : length s ≡ 16 → IsU16 lsp → read16 {E = TlvError} (drop 16 value6) ≡ ok lsp
  lsp6 hs h =
      rw (drop-append s (put16 lsp ++ (put16 tunnel ++ (x ++ e))) 16 hs) (put16_read lsp _ h)

  tunnel6 : length s ≡ 16 → IsU16 tunnel → read16 {E = TlvError} (drop 18 value6) ≡ ok tunnel
  tunnel6 hs h =
      rw (drop-append_more s (put16 lsp ++ (put16 tunnel ++ (x ++ e))) 16 2 18 hs refl)
        (rw (after16 lsp (put16 tunnel ++ (x ++ e)) 0) (put16_read tunnel _ h))

  abbrev before_ext6 : List ℕ
  before_ext6 = s ++ (put16 lsp ++ put16 tunnel)

  length-before_ext6 : length s ≡ 16 → length before_ext6 ≡ 20
  unfolding put16
  length-before_ext6 hs = omega (arith, length-append s (put16 lsp ++ put16 tunnel))

  regroup6 : before_ext6 ++ (x ++ e) ≡ value6
  unfolding put16
  regroup6 = append_assoc s (put16 lsp ++ put16 tunnel) (x ++ e)

  ext6 : length s ≡ 16 → length x ≡ 16 → slice {E = TlvError} value6 20 36 ≡ ok x
  ext6 hs hx =
      ap (λ v. slice {E = TlvError} v 20 36) (sym regroup6)
      ∙ slice_part before_ext6 x e 20 36 (length-before_ext6 hs) (omega arith)

  endpoint6 :
      length s ≡ 16 → length x ≡ 16 → length e ≡ 16 → slice {E = TlvError} value6 36 52 ≡ ok e
  endpoint6 hs hx he =
      ap (λ v. slice {E = TlvError} v 36 52)
        (sym (
          append_assoc before_ext6 x (e ++ [])
          ∙ (ap (λ r. before_ext6 ++ (x ++ r)) (append-nil e) ∙ regroup6)))
      ∙ slice_part (before_ext6 ++ x) e [] 36 52
          (omega (arith, length-append before_ext6 x, length-before_ext6 hs)) (omega arith)

decode_ipv6_put :
    (t : Ipv6LspIdentifiers)
    → IsV6 t.ipv6_tunnel_sender_address
    → IsV6 t.ipv6_tunnel_endpoint_address
    → IsU16 t.lsp_id
    → IsU16 t.tunnel_id
    → length t.extended_tunnel_id ≡ 16
    → decode_ipv6_lsp_identifiers (
        unpadded 0x13 (
          value6
            (as_slice t.ipv6_tunnel_sender_address)
            t.extended_tunnel_id
            (as_slice t.ipv6_tunnel_endpoint_address)
            t.lsp_id
            t.tunnel_id))
      ≡ ok t
unfolding decode_ipv6_lsp_identifiers
decode_ipv6_put t hs he hl ht hx =
    let s = as_slice t.ipv6_tunnel_sender_address in
    let e = as_slice t.ipv6_tunnel_endpoint_address in
    let x = t.extended_tunnel_id in
    let (ls, ks) = v6_kept t.ipv6_tunnel_sender_address hs in
    let (le, ke) = v6_kept t.ipv6_tunnel_endpoint_address he in
    rw
      (fixed_value_put 0x13 (value6 s x e t.lsp_id t.tunnel_id) 52
        (length-value6 s x e t.lsp_id t.tunnel_id ls hx le) (omega arith))
      (rw (sender6 s x e t.lsp_id t.tunnel_id ls) (
        rw (lsp6 s x e t.lsp_id t.tunnel_id ls hl) (
          rw (tunnel6 s x e t.lsp_id t.tunnel_id ls ht) (
            rw (ext6 s x e t.lsp_id t.tunnel_id ls hx) (
              rw (endpoint6 s x e t.lsp_id t.tunnel_id ls hx le) (λ i. ok (record {
                ipv6_tunnel_sender_address = ks i;
                ipv6_tunnel_endpoint_address = ke i;
                lsp_id = t.lsp_id;
                tunnel_id = t.tunnel_id;
                extended_tunnel_id = x;
              })))))))

module _ (sub : Sub) where
  pub ipv4_lsp_identifiers-Reads :
      (t : Ipv4LspIdentifiers)
      → IsV4 t.ipv4_tunnel_sender_address
      → IsV4 t.ipv4_tunnel_endpoint_address
      → IsU16 t.lsp_id
      → IsU16 t.tunnel_id
      → IsU32 t.extended_tunnel_id
      → Reads sub (ipv4_lsp_identifiers t)
  ipv4_lsp_identifiers-Reads t hs he hl ht hx =
      let s = as_slice t.ipv4_tunnel_sender_address in
      let e = as_slice t.ipv4_tunnel_endpoint_address in
      let (ls, ks) = v4_kept t.ipv4_tunnel_sender_address hs in
      let (le, ke) = v4_kept t.ipv4_tunnel_endpoint_address he in
      let v = value4 s e t.lsp_id t.tunnel_id t.extended_tunnel_id in
      let len = length-value4 s e t.lsp_id t.tunnel_id t.extended_tunnel_id ls le in
      unpadded-Reads sub (ipv4_lsp_identifiers t) 0x12 v 16
        (unfold serialize serialize_ipv4_lsp_identifiers in
          rw (copy_into_all 4 s ls) (
            rw (copy_into_all 4 e le) (
              framed_eq 0x12 16 v
              ∙ (ap (λ n. put16 0x12 ++ (put16 n ++ v)) (sym len)
                  ∙ sym (append-nil (unpadded 0x12 v))))))
        (omega arith) len (omega arith) (omega arith)
        (unfold decode_known in rw (decode_ipv4_put t hs he hl ht hx))

  pub ipv6_lsp_identifiers-Reads :
      (t : Ipv6LspIdentifiers)
      → IsV6 t.ipv6_tunnel_sender_address
      → IsV6 t.ipv6_tunnel_endpoint_address
      → IsU16 t.lsp_id
      → IsU16 t.tunnel_id
      → length t.extended_tunnel_id ≡ 16
      → Reads sub (ipv6_lsp_identifiers t)
  ipv6_lsp_identifiers-Reads t hs he hl ht hx =
      let s = as_slice t.ipv6_tunnel_sender_address in
      let e = as_slice t.ipv6_tunnel_endpoint_address in
      let (ls, ks) = v6_kept t.ipv6_tunnel_sender_address hs in
      let (le, ke) = v6_kept t.ipv6_tunnel_endpoint_address he in
      let v = value6 s t.extended_tunnel_id e t.lsp_id t.tunnel_id in
      let len = length-value6 s t.extended_tunnel_id e t.lsp_id t.tunnel_id ls hx le in
      unpadded-Reads sub (ipv6_lsp_identifiers t) 0x13 v 52
        (unfold serialize serialize_ipv6_lsp_identifiers in
          rw (copy_into_all 16 s ls) (
            rw (copy_into_all 16 e le) (
              rw (copy_into_all 16 t.extended_tunnel_id hx) (
                framed_eq 0x13 52 v
                ∙ (ap (λ n. put16 0x13 ++ (put16 n ++ v)) (sym len)
                    ∙ sym (append-nil (unpadded 0x13 v)))))))
        (omega arith) len (omega arith) (omega arith)
        (unfold decode_known in rw (decode_ipv6_put t hs he hl ht hx))
