-- ===== src/Wire/Encodes.antt =====
-- What it is for a field of src/defs/types.ts to write a value so that it is read back.
use smpp_js.Prelude.{
  ℕ, zero, suc, ◌+◌, ◌≤◌, ◌<◌, ◌≡◌, refl, sym, ap, ◌∙◌, false, Option, none, some, List, [], ◌∷◌,
  ◌++◌, append_assoc, append_assoc, length, take, drop, replicate, length-append, drop-append,
  take-append, arith, ◌==◌,
}
use smpp_js.Prelude.Results.{ok, err}
use smpp_js.Wire.{
  whole, ParamValue, Fallible, unterminated, number, bytes, text, out_of_range, poke, index_of,
  is_wide, is_nul, past_latin1, want_int, want_text, want_cstring_text, WireType,
}
use smpp_js.Wire.Ints.{
  Width, one, two, four, octets_of, max_of, read_be, write_be, int_read, int_write, int_type,
}
use smpp_js.Wire.Texts.{
  cstring_length, read_cstring, write_cstring, cstring_size, cstring_write, cstring, buffer_read,
  buffer_size, buffer_write, buffer,
}

-- `chunk` is what a buffer of exactly the size of the value holds after the write, and reading it
-- at any place of any buffer takes its octets and gives `back`.
pub record Encodes (t : WireType) (given : Option ℕ) (value back : ParamValue) (chunk : List ℕ)
    : Type 0 where
  pub sized : t.size value ≡ ok (length chunk)
  pub written : t.write value (replicate (length chunk) 0) 0 ≡ ok chunk
  pub reads :
      (pre post : List ℕ)
      → t.read (pre ++ (chunk ++ post)) (length pre) given ≡ ok (length chunk, back)

pub poke_all : (xs : List ℕ) → poke 0 xs (replicate (length xs) 0) ≡ xs
poke_all [] = refl
poke_all (x ∷ xs) = ap (◌∷◌ x) (poke_all xs)

pub length-replicate : (n : ℕ) → length (replicate {A = ℕ} n 0) ≡ n
length-replicate zero = refl
length-replicate (suc n) = ap suc (length-replicate n)

-- A read of octets that are there is in range.
pub in_range :
    (pre chunk post : List ℕ) (n : ℕ)
    → n ≤ length chunk
    → out_of_range (pre ++ (chunk ++ post)) (length pre) n ≡ none
unfolding out_of_range
in_range pre chunk post n h =
    ground (arith, length-append pre (chunk ++ post), length-append chunk post)

in_room : (n k : ℕ) → k ≡ n → out_of_range (replicate n 0) 0 k ≡ none
unfolding out_of_range
in_room n k h = ground (arith, length-replicate n)

read_be-write_be :
    (w : Width) (n : ℕ) (post : List ℕ) → n ≤ max_of w → read_be w (write_be w n ++ post) ≡ n
unfolding read_be write_be max_of
read_be-write_be one n post h = refl
read_be-write_be two n post h = omega arith
read_be-write_be four n post h = omega arith

pub length-write_be : (w : Width) (n : ℕ) → length (write_be w n) ≡ octets_of w
unfolding write_be octets_of
length-write_be one n = refl
length-write_be two n = refl
length-write_be four n = refl

pub want_int-whole : (n max : ℕ) → n ≤ max → want_int (number (whole n)) max ≡ ok n
unfolding want_int
want_int-whole n max h = ground arith

int_written :
    (w : Width) (n : ℕ)
    → n ≤ max_of w
    → int_write w (number (whole n)) (replicate (length (write_be w n)) 0) 0 ≡ ok (write_be w n)
unfolding int_write
int_written w n h =
    rw (in_room (length (write_be w n)) (octets_of w) (sym (length-write_be w n)), int_write)
      (rw (want_int-whole n (max_of w) h) (ap ok (poke_all (write_be w n))))

pub int_reads :
    (w : Width) (n : ℕ) (pre post : List ℕ)
    → n ≤ max_of w
    → int_read w (pre ++ (write_be w n ++ post)) (length pre)
      ≡ ok (length (write_be w n), number (whole n))
unfolding int_read
int_reads w n pre post h =
    rw
      (
        in_range pre (write_be w n) post (octets_of w) (omega (arith, length-write_be w n)),
        int_read,
      )
      (rw (drop-append pre (write_be w n ++ post), read_be-write_be w n post h, length-write_be w n)
        refl)

-- An integer in the range of its width is written big-endian in as many octets, and read back.
pub int_type-Encodes :
    (w : Width) (n : ℕ) (given : Option ℕ)
    → n ≤ max_of w
    → Encodes (int_type w) given (number (whole n)) (number (whole n)) (write_be w n)
unfolding int_type
int_type-Encodes w n given h = record {
  sized = ap ok (sym (length-write_be w n));
  written = int_written w n h;
  reads = λ pre post. int_reads w n pre post h;
}

-- A text that latin1 carries, and one with no NUL.
abbrev pub Latin1 : List ℕ → Type 0
Latin1 t = index_of is_wide t ≡ none

abbrev pub NoNul : List ℕ → Type 0
NoNul t = index_of is_nul t ≡ none

pub want_text_lem : (t : List ℕ) → Latin1 t → want_text (text t) ≡ ok t
unfolding want_text
want_text_lem t h = rw (h, past_latin1)

pub want_cstring_text_lem : (t : List ℕ) → Latin1 t → NoNul t → want_cstring_text (text t) ≡ ok t
unfolding want_cstring_text
want_cstring_text_lem t h z = ground (arith, h, z)

cstring_length-append :
    (t post : List ℕ) → NoNul t → cstring_length (t ++ (0 ∷ post)) ≡ some (length t)
unfolding cstring_length
cstring_length-append [] post z = refl
cstring_length-append (c ∷ t) post z = ground (arith, cstring_length-append t post)

not_at_end :
    (pre chunk post : List ℕ)
    → 0 < length chunk
    → (length pre == length (pre ++ (chunk ++ post))) ≡ false
not_at_end pre chunk post h =
    ground (arith, length-append pre (chunk ++ post), length-append chunk post)

abbrev terminated : List ℕ → List ℕ
terminated t = t ++ (0 ∷ [])

length-terminated : (t : List ℕ) → length (terminated t) ≡ length t + 1
length-terminated t = length-append t (0 ∷ [])

-- Stated for every `post`, so that a text is read inside larger fields too.
pub read_cstring_lem :
    (t pre post : List ℕ)
    → NoNul t
    → read_cstring (pre ++ (terminated t ++ post)) (length pre) ≡ ok (length t + 1, t)
unfolding read_cstring
read_cstring_lem t pre post z =
    rw (in_range pre (terminated t) post 0 (omega arith), read_cstring)
      (rw (not_at_end pre (terminated t) post (omega (arith, length-terminated t)), read_cstring)
        (rest (drop (length pre) (pre ++ (terminated t ++ post)))
          (drop-append pre (terminated t ++ post) ∙ append_assoc t (0 ∷ []) post)))
  where
    found : Fallible (ℕ × List ℕ)
    found = ok (length t + 1, t)

    rest :
        (cs : List ℕ)
        → cs ≡ t ++ (0 ∷ post)
        → (elim (cstring_length cs) [ none ↦ err unterminated | some n ↦ ok (n + 1, take n cs) ])
          ≡ found
    rest cs e =
        rw (ap cstring_length e ∙ cstring_length-append t post z)
          (ap (λ r. ok (length t + 1, r)) (ap (take (length t)) e ∙ take-append t (0 ∷ post)))

cstring_written :
    (t : List ℕ)
    → Latin1 t
    → NoNul t
    → cstring_write (text t) (replicate (length (terminated t)) 0) 0 ≡ ok (terminated t)
unfolding cstring_write
cstring_written t h z = rw (want_cstring_text_lem t h z) (
    rw (in_room (length (terminated t)) (length t + 1) (sym (length-terminated t)), write_cstring)
      (ap ok (poke_all (terminated t))))

-- A C-octet string with no NUL in it that latin1 carries is written with a NUL behind it, and read
-- back without.
pub cstring-Encodes :
    (t : List ℕ) (given : Option ℕ)
    → Latin1 t
    → NoNul t
    → Encodes cstring given (text t) (text t) (terminated t)
unfolding cstring cstring_size
cstring-Encodes t given h z = record {
  sized = rw (want_cstring_text_lem t h z) (ap ok (sym (length-terminated t)));
  written = cstring_written t h z;
  reads = λ pre post.
      rw (read_cstring_lem t pre post z) (ap (λ n. ok (n, text t)) (sym (length-terminated t)));
}

buffer_written : (b : List ℕ) → buffer_write (bytes b) (replicate (length b) 0) 0 ≡ ok b
unfolding buffer_write
buffer_written b = ground (arith, in_room (length b) (length b) refl, poke_all b)

pub buffer_reads :
    (b pre post : List ℕ)
    → buffer_read (pre ++ (b ++ post)) (length pre) (some (length b)) ≡ ok (length b, bytes b)
unfolding buffer_read
buffer_reads b pre post =
    rw (in_range pre b post (length b) (omega arith), buffer_read)
      (rw (drop-append pre (b ++ post), take-append b post) refl)

-- Octets are written as they are, and as many are read back as the field before them said.
pub buffer-Encodes : (b : List ℕ) → Encodes buffer (some (length b)) (bytes b) (bytes b) b
unfolding buffer buffer_size
buffer-Encodes b = record {
  sized = refl;
  written = buffer_written b;
  reads = λ pre post. buffer_reads b pre post;
}
