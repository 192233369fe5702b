-- ===== src/Defs/Tlvs/Keyed.antt =====
-- The two loops of `keyedTlvs` in src/defs/tlvs.ts on occurrences of tags that differ.
use smpp_js.Prelude.{
  ℕ, ◌≡◌, refl, sym, ap, ◌∙◌, true, false, none, some, List, [], ◌∷◌, ◌++◌, append_assoc,
  append-nil, find, put, beq_refl, find-append, arith,
}
use smpp_js.Wire.{ParamValue}
use smpp_js.Retained.{TagKey, key_eq}
use smpp_js.Defs.Tlvs.{tlvs_by_id}
use smpp_js.Defs.Tlvs.Codec.{
  Occurrence, one_value, Entry, key_of, name_of, is_multiple, Repeated, gather,
}
use smpp_js.Defs.Tlvs.Stream.{occurrence}

module _ {ℓ} {V : Type ℓ} where
  -- A key that is not there is put at the end, and put there again.
  pub put_absent :
      (k : TagKey) (v : V) (m : List (TagKey × V))
      → find k m ≡ none
      → put k v m ≡ m ++ ((k, v) ∷ [])
  put_absent k v [] h = refl
  put_absent k v ((j, w) ∷ m) h = ground (arith, put_absent k v m)

  put_again :
      (k : TagKey) (v w : V) (m : List (TagKey × V))
      → find k m ≡ none
      → put k w (m ++ ((k, v) ∷ [])) ≡ m ++ ((k, w) ∷ [])
  put_again k v w [] h = rw (beq_refl k) refl
  put_again k v w ((j, x) ∷ m) h = ground (arith, put_again k v w m)

  find_last :
      (k : TagKey) (v : V) (m : List (TagKey × V))
      → find k m ≡ none
      → find k (m ++ ((k, v) ∷ [])) ≡ some v
  find_last k v m h = find-append k m ((k, v) ∷ []) h ∙ rw (beq_refl k) refl

  pub find_other :
      (j k : TagKey) (v : V) (m : List (TagKey × V))
      → find j m ≡ none
      → key_eq.beq k j ≡ false
      → find j (m ++ ((k, v) ∷ [])) ≡ none
  find_other j k v m h n = find-append j m ((k, v) ∷ []) h ∙ rw n refl

abbrev pub occurrences_of : ℕ → List ParamValue → List Occurrence
occurrences_of tag_id [] = []
occurrences_of tag_id (v ∷ vs) = occurrence tag_id v ∷ occurrences_of tag_id vs

-- What has been read of a tag that may repeat is added to, in its order.
gather_more :
    (tag_id : ℕ) (key : TagKey) (vs had : List ParamValue) (os : List Occurrence)
    (repeated : Repeated) (tlvs : List (TagKey × Entry))
    → is_multiple (tlvs_by_id tag_id) ≡ true
    → key_of (tlvs_by_id tag_id) tag_id ≡ key
    → find key repeated ≡ none
    → gather (occurrences_of tag_id vs ++ os) (repeated ++ ((key, (tag_id, had)) ∷ [])) tlvs
      ≡ gather os (repeated ++ ((key, (tag_id, had ++ vs)) ∷ [])) tlvs
unfolding gather
gather_more tag_id key [] had os repeated tlvs m same h =
    ap (λ ws. gather os (repeated ++ ((key, (tag_id, ws)) ∷ [])) tlvs) (sym (append-nil had))
gather_more tag_id key (v ∷ vs) had os repeated tlvs m same h =
    rw (m, gather)
      (rw same (
        rw (find_last key (tag_id, had) repeated h) (
          rw (put_again key (tag_id, had) (tag_id, had ++ (v ∷ [])) repeated h) (
            gather_more tag_id key vs (had ++ (v ∷ [])) os repeated tlvs m same h
            ∙ ap (λ ws. gather os (repeated ++ ((key, (tag_id, ws)) ∷ [])) tlvs)
                (append_assoc had (v ∷ []) vs)))))

pub gather_several :
    (tag_id : ℕ) (key : TagKey) (v : ParamValue) (vs : List ParamValue) (os : List Occurrence)
    (repeated : Repeated) (tlvs : List (TagKey × Entry))
    → is_multiple (tlvs_by_id tag_id) ≡ true
    → key_of (tlvs_by_id tag_id) tag_id ≡ key
    → find key repeated ≡ none
    → gather (occurrences_of tag_id (v ∷ vs) ++ os) repeated tlvs
      ≡ gather os (repeated ++ ((key, (tag_id, v ∷ vs)) ∷ [])) tlvs
unfolding gather
gather_several tag_id key v vs os repeated tlvs m same h =
    rw (m, gather)
      (rw same (
        rw h (
          rw (put_absent key (tag_id, v ∷ []) repeated h)
            (gather_more tag_id key vs (v ∷ []) os repeated tlvs m same h))))

pub gather_one :
    (tag_id : ℕ) (key : TagKey) (v : ParamValue) (os : List Occurrence) (repeated : Repeated)
    (tlvs : List (TagKey × Entry))
    → is_multiple (tlvs_by_id tag_id) ≡ false
    → key_of (tlvs_by_id tag_id) tag_id ≡ key
    → find key tlvs ≡ none
    → gather (occurrence tag_id v ∷ os) repeated tlvs
      ≡ gather os repeated (
          tlvs
          ++ ((
            key,
            record {
              tag_id = tag_id;
              tag_name = name_of (tlvs_by_id tag_id);
              tag_value = one_value v;
            },
          )
              ∷ []))
unfolding gather
gather_one tag_id key v os repeated tlvs m same h =
    rw (m, gather) (rw same (ap (gather os repeated) (put_absent key _ tlvs h)))
