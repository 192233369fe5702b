-- ===== src/Defs/Tlvs/Values.antt =====
-- The values that a type of src/defs/tlvs.ts carries, each with the octets that spell it.
use smpp_js.Prelude.{
  ℕ, ◌+◌, ◌≤◌, ◌≡◌, refl, sym, ap, ◌∙◌, subst, false, none, some, List, [], ◌∷◌, ◌++◌, append_assoc,
  length, take, replicate, length-append, drop-append, take-append, ltb, arith,
}
use smpp_js.Prelude.Results.{ok}
use smpp_js.Wire.{whole, ParamValue, number, bytes, text, out_of_range, poke, index_of, is_nul}
use smpp_js.Wire.Ints.{
  Width, one, two, four, octets_of, max_of, write_be, int_read, int_write, tlv_int_read, tlv_int,
}
use smpp_js.Wire.Texts.{
  write_cstring, cstring_size, cstring_write, tlv_cstring_read, tlv_cstring, tlv_string_read,
  tlv_string_size, tlv_string_write, tlv_string, buffer_size, buffer_write,
}
use smpp_js.Wire.Encodes.{
  in_range, Latin1, NoNul, want_int-whole, want_text_lem, want_cstring_text_lem, length-write_be,
  int_reads, buffer_reads, length-replicate, poke_all,
}
use smpp_js.Defs.Tlvs.{TlvType, int, cstring, string, buffer, wire_type}

-- `Carries type value chunk`: the type takes the value, and these octets spell it.
pub data Carries : TlvType → ParamValue → List ℕ → Type 0 where
  integer : {w : Width} {n : ℕ} → n ≤ max_of w → Carries (int w) (number (whole n)) (write_be w n)
  terminated :
      {t : List ℕ}
      → Latin1 t
      → NoNul t
      → length t + 1 ≤ 0xFFFF
      → Carries cstring (text t) (t ++ (0 ∷ []))
  plain : {t : List ℕ} → Latin1 t → length t ≤ 0xFFFF → Carries string (text t) t
  raw : {b : List ℕ} → length b ≤ 0xFFFF → Carries buffer (bytes b) b

length-nul : (t : List ℕ) → length (t ++ (0 ∷ [])) ≡ length t + 1
length-nul t = length-append t (0 ∷ [])

pub Carries-short :
    {type : TlvType} {v : ParamValue} {chunk : List ℕ}
    → Carries type v chunk
    → length chunk ≤ 0xFFFF
unfolding octets_of
Carries-short (integer {w} {n} h) = subst (λ k. k ≤ 0xFFFF) (sym (length-write_be w n)) (small w)
  where
    small : (w : Width) → octets_of w ≤ 0xFFFF
    small one = omega arith
    small two = omega arith
    small four = omega arith
Carries-short (terminated {t} l z h) = subst (λ k. k ≤ 0xFFFF) (sym (length-nul t)) h
Carries-short (plain l h) = h
Carries-short (raw h) = h

pub Carries-size :
    {type : TlvType} {v : ParamValue} {chunk : List ℕ}
    → Carries type v chunk
    → (wire_type type).size v ≡ ok (length chunk)
unfolding wire_type tlv_int tlv_cstring tlv_string cstring_size tlv_string_size buffer_size
Carries-size (integer {w} {n} h) = ap ok (sym (length-write_be w n))
Carries-size (terminated {t} l z h) = rw (want_cstring_text_lem t l z) (ap ok (sym (length-nul t)))
Carries-size (plain {t} l h) = rw (want_text_lem t l) refl
Carries-size (raw h) = refl

-- A write behind a head that is there.
poke_behind :
    (head xs : List ℕ) → poke (length head) xs (head ++ replicate (length xs) 0) ≡ head ++ xs
poke_behind [] xs = poke_all xs
poke_behind (x ∷ head) xs = ap (◌∷◌ x) (poke_behind head xs)

room_behind :
    (head : List ℕ) (n k : ℕ) → n ≡ k → out_of_range (head ++ replicate n 0) (length head) k ≡ none
unfolding out_of_range
room_behind head n k h = ground (arith, length-append head (replicate n 0), length-replicate n)

pub Carries-write :
    {type : TlvType} {v : ParamValue} {chunk : List ℕ} (head : List ℕ)
    → Carries type v chunk
    → (wire_type type).write v (head ++ replicate (length chunk) 0) (length head)
      ≡ ok (head ++ chunk)
unfolding wire_type tlv_int tlv_cstring tlv_string int_write cstring_write write_cstring
    tlv_string_write buffer_write
Carries-write head (integer {w} {n} h) =
    rw (room_behind head (length (write_be w n)) (octets_of w) (length-write_be w n), int_write)
      (rw (want_int-whole n (max_of w) h) (ap ok (poke_behind head (write_be w n))))
Carries-write head (terminated {t} l z h) = rw (want_cstring_text_lem t l z) (
    rw (room_behind head (length (t ++ (0 ∷ []))) (length t + 1) (length-nul t), write_cstring)
      (ap ok (poke_behind head (t ++ (0 ∷ [])))))
Carries-write head (plain {t} l h) =
    ground
      (arith, want_text_lem t l, room_behind head (length t) (length t) refl, poke_behind head t)
Carries-write head (raw {b} h) =
    ground (arith, room_behind head (length b) (length b) refl, poke_behind head b)

width_read :
    (w : Width) (buf : List ℕ) (offset n : ℕ)
    → n ≡ octets_of w
    → tlv_int_read w buf offset (some n) ≡ int_read w buf offset
unfolding tlv_int_read octets_of
width_read one buf offset n h = rw h refl
width_read two buf offset n h = rw h refl
width_read four buf offset n h = rw h refl

first_nul : (t post : List ℕ) → NoNul t → index_of is_nul (t ++ (0 ∷ post)) ≡ some (length t)
first_nul [] post z = refl
first_nul (c ∷ t) post z = ground (arith, first_nul t post)

cstring_reads :
    (t pre post : List ℕ)
    → NoNul t
    → tlv_cstring_read
        (pre ++ ((t ++ (0 ∷ [])) ++ post))
        (length pre)
        (some (length (t ++ (0 ∷ []))))
      ≡ ok (length (t ++ (0 ∷ [])), text t)
unfolding tlv_cstring_read
cstring_reads t pre post z =
    let n = length (t ++ (0 ∷ [])) in
    let here = drop-append pre ((t ++ (0 ∷ [])) ++ post) ∙ append_assoc t (0 ∷ []) post in
    rw (in_range pre (t ++ (0 ∷ [])) post n (omega arith), tlv_cstring_read)
      (rw (ap (index_of is_nul) here ∙ first_nul t post z) (
        rw (beyond (length t) n (omega (arith, length-nul t)))
          (ap (λ cs. ok (n, text cs)) (ap (take (length t)) here ∙ take-append t (0 ∷ post)))))
  where
    beyond : (i n : ℕ) → i ≤ n → ltb n i ≡ false
    beyond i n h = ground arith

string_reads :
    (t pre post : List ℕ)
    → tlv_string_read (pre ++ (t ++ post)) (length pre) (some (length t)) ≡ ok (length t, text t)
unfolding tlv_string_read
string_reads t pre post =
    rw (in_range pre t post (length t) (omega arith), tlv_string_read)
      (rw (drop-append pre (t ++ post), take-append t post) refl)

pub Carries-read :
    {type : TlvType} {v : ParamValue} {chunk : List ℕ} (pre post : List ℕ)
    → Carries type v chunk
    → (wire_type type).read (pre ++ (chunk ++ post)) (length pre) (some (length chunk))
      ≡ ok (length chunk, v)
unfolding wire_type tlv_int tlv_cstring tlv_string
Carries-read pre post (integer {w} {n} h) =
    width_read w (pre ++ (write_be w n ++ post)) (length pre) (length (write_be w n))
      (length-write_be w n)
    ∙ int_reads w n pre post h
Carries-read pre post (terminated {t} l z h) = cstring_reads t pre post z
Carries-read pre post (plain {t} l h) = string_reads t pre post
Carries-read pre post (raw {b} h) = buffer_reads b pre post
