-- ===== src/Framer/Chunking.antt =====
-- The chunks in which a stream arrives, and the calls of `next` between them, change nothing.
use smpp_js.Prelude.{
  ℕ, ◌≤◌, ◌≡◌, ◌≢◌, refl, sym, ap, subst, ◌∙◌, Option, none, some, List, ◌∷◌, ◌++◌, length, take,
  drop, length-append, take-append_le, drop-append_le, arith,
}
use smpp_js.Framer.{
  FramingError, framing_refusal, read_uint32_be, PduFramer, Framed, pdus, err, next, push,
}
use smpp_js.Framer.Cuts.{
  Left, keeps, refuses, Cuts, short, partial, refused, whole, octets, IsCounted,
  read_uint32_be-append,
}
use smpp_js.Framer.Stream.{CutBy, next-CutBy, push-IsCounted}

pub Cuts-whole :
    (bs : List ℕ) {ps : List (List ℕ)} {o : Left} (p rest : List ℕ)
    → 16 ≤ length bs
    → framing_refusal (read_uint32_be bs) ≡ none
    → read_uint32_be bs ≤ length bs
    → p ≡ take (read_uint32_be bs) bs
    → rest ≡ drop (read_uint32_be bs) bs
    → Cuts rest ps o
    → Cuts bs (p ∷ ps) o
Cuts-whole bs {ps} {o} p rest l good fits pe re k =
    subst (λ z. Cuts bs (z ∷ ps) o) (sym pe) (whole l good fits (subst (λ z. Cuts z ps o) re k))

-- More octets behind a stream are cut with what the stream had left.
pub Cuts-append :
    {bs : List ℕ} {ps : List (List ℕ)} {left : List ℕ} (ys : List ℕ) {qs : List (List ℕ)} {o : Left}
    → Cuts bs ps (keeps left)
    → Cuts (left ++ ys) qs o
    → Cuts (bs ++ ys) (ps ++ qs) o
Cuts-append ys (short _) k = k
Cuts-append ys (partial _ _ _) k = k
Cuts-append ys (whole {bs = bs} {ps = ps} l good fits c) k =
    let n = read_uint32_be bs in
    let same : read_uint32_be (bs ++ ys) ≡ n = read_uint32_be-append bs ys (omega arith) in
    let rest = Cuts-append ys c k in
    Cuts-whole (bs ++ ys) _ _ (omega (arith, length-append bs ys)) (ap framing_refusal same ∙ good)
      (omega (arith, length-append bs ys, same))
      (sym (ap (λ k. take k (bs ++ ys)) same ∙ take-append_le n bs ys fits))
      (sym (ap (λ k. drop k (bs ++ ys)) same ∙ drop-append_le n bs ys fits)) rest

some_unique : {o : Option FramingError} {a b : FramingError} → o ≡ some a → o ≡ some b → a ≡ b
some_unique p q = cc

Cuts-unique :
    {bs : List ℕ} {ps qs : List (List ℕ)} {o o' : Left}
    → Cuts bs ps o
    → Cuts bs qs o'
    → (ps ≡ qs) × (o ≡ o')
Cuts-unique (short _) (short _) = (refl, refl)
Cuts-unique (short h) (partial l _ _) = absurd (omega arith)
Cuts-unique (short h) (refused l _) = absurd (omega arith)
Cuts-unique (short h) (whole l _ _ _) = absurd (omega arith)
Cuts-unique (partial l _ _) (short h) = absurd (omega arith)
Cuts-unique (partial _ _ _) (partial _ _ _) = (refl, refl)
Cuts-unique (partial _ g _) (refused _ b) = cc
Cuts-unique (partial _ _ p) (whole _ _ f _) = absurd (omega arith)
Cuts-unique (refused l _) (short h) = absurd (omega arith)
Cuts-unique (refused _ b) (partial _ g _) = cc
Cuts-unique (refused _ b) (refused _ d) = (refl, ap refuses (some_unique b d))
Cuts-unique (refused _ b) (whole _ g _ _) = cc
Cuts-unique (whole l _ _ _) (short h) = absurd (omega arith)
Cuts-unique (whole _ _ f _) (partial _ _ p) = absurd (omega arith)
Cuts-unique (whole _ g _ _) (refused _ b) = cc
Cuts-unique (whole {bs = bs} _ _ _ c) (whole _ _ _ d) =
    let (same, left) = Cuts-unique c d in (ap (◌∷◌ (take (read_uint32_be bs) bs)) same, left)

-- The answer of two calls together: the PDUs of the first before those of the second.
abbrev pub after : List (List ℕ) → Framed → Framed
after ps (pdus qs) = pdus (ps ++ qs)
after ps (err e) = err e

-- What a framer has left, with its answer.
abbrev pub left_by : PduFramer → Framed → Left
left_by g (pdus ps) = keeps (octets g)
left_by g (err e) = refuses e

Cuts_of_eq :
    {bs bs' : List ℕ} {ps : List (List ℕ)} {o : Left} → bs ≡ bs' → Cuts bs ps o → Cuts bs' ps o
Cuts_of_eq {ps = ps} {o = o} e k = subst (λ z. Cuts z ps o) e k

after-CutBy :
    (f g p q h h' : PduFramer) (ps : List (List ℕ)) (chunk : List ℕ) (r r' : Framed)
    → CutBy f g (pdus ps)
    → octets p ≡ octets f ++ chunk
    → octets q ≡ octets g ++ chunk
    → CutBy q h r
    → CutBy p h' r'
    → (r' ≡ after ps r) × (left_by h' r' ≡ left_by h r)
after-CutBy f g p q h h' ps chunk (pdus qs) (pdus qs') (_, k) pe qe (_, m) (_, n) =
    let one = Cuts-append chunk k (Cuts_of_eq qe m) in
    let (a, b) = Cuts-unique (Cuts_of_eq pe n) one in (ap pdus a, b)
after-CutBy f g p q h h' ps chunk (pdus qs) (err e') (_, k) pe qe (_, m) (_, n) =
    let one = Cuts-append chunk k (Cuts_of_eq qe m) in
    let (a, b) = Cuts-unique (Cuts_of_eq pe n) one in cc
after-CutBy f g p q h h' ps chunk (err e) (pdus qs') (_, k) pe qe (_, m) (_, n) =
    let one = Cuts-append chunk k (Cuts_of_eq qe m) in
    let (a, b) = Cuts-unique (Cuts_of_eq pe n) one in cc
after-CutBy f g p q h h' ps chunk (err e) (err e') (_, k) pe qe (_, m) (_, n) =
    let one = Cuts-append chunk k (Cuts_of_eq qe m) in
    let (a, b) = Cuts-unique (Cuts_of_eq pe n) one in let same : e' ≡ e = cc in (ap err same, b)

pair_of_some {ℓ} : {A : Type ℓ} {a b : A} → some a ≡ some b → a ≡ b
pair_of_some p = cc

CutBy-of_next : (f g : PduFramer) (r : Framed) → IsCounted f → next f ≡ some (g, r) → CutBy f g r
CutBy-of_next f g r c e =
    let (g', r', e', k) = next-CutBy f c in
    let same : some (g', r') ≡ some (g, r) = sym e' ∙ e in
    subst (λ z. CutBy f z.0 z.1) (pair_of_some same) k

keeps_inj : {a b : List ℕ} → keeps a ≡ keeps b → a ≡ b
keeps_inj e = cc

keeps_not_refuses : {a : List ℕ} {e : FramingError} → keeps a ≢ refuses e
keeps_not_refuses h = cc

cut_as :
    (f g : PduFramer) {ps : List (List ℕ)} {left : List ℕ} (r : Framed)
    → CutBy f g r
    → Cuts (octets f) ps (keeps left)
    → (r ≡ pdus ps) × (octets g ≡ left)
cut_as f g (pdus qs) (_, k) c = let (a, b) = Cuts-unique k c in (ap pdus a, keeps_inj b)
cut_as f g (err e) (qs, k) c = absurd (keeps_not_refuses (sym (Cuts-unique k c).1))

-- `next` on octets that are known to be cut into PDUs with something left.
pub next-Cuts :
    (f : PduFramer) {ps : List (List ℕ)} {left : List ℕ}
    → IsCounted f
    → Cuts (octets f) ps (keeps left)
    → (g : PduFramer) × (next f ≡ some (g, pdus ps)) × (octets g ≡ left)
next-Cuts f c k =
    let (g, r, e, m) = next-CutBy f c in
    let (same, left) = cut_as f g r m k in (g, e ∙ ap (λ z. some (g, z)) same, left)

-- Chunking does not matter: calling `next` between two arrivals and again after the second gives,
-- together, the same PDUs or refusal and the same octets left as one call after both.
pub next-push :
    (f g h : PduFramer) (ps : List (List ℕ)) (r : Framed) (chunk : List ℕ)
    → IsCounted f
    → next f ≡ some (g, pdus ps)
    → next (push chunk g) ≡ some (h, r)
    → (h' : PduFramer) × (next (push chunk f) ≡ some (h', after ps r))
      × (left_by h' (after ps r) ≡ left_by h r)
next-push f g h ps r chunk c e d =
    let k = CutBy-of_next f g (pdus ps) c e in
    let (fc, fo) = push-IsCounted chunk f c in
    let (gc, go) = push-IsCounted chunk g k.0 in
    let m = CutBy-of_next (push chunk g) h r gc d in
    let (h', r', e', n) = next-CutBy (push chunk f) fc in
    let (re, le) = after-CutBy f g (push chunk f) (push chunk g) h h' ps chunk r r' k fo go m n in
    (h', e' ∙ ap (λ z. some (h', z)) re, subst (λ z. left_by h' z ≡ left_by h r) re le)
