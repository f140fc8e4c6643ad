-- ===== src/Uart/Fifo.antt =====
-- The ring buffer of src/uart.c against a queue of characters.
use cmips_cen.Base.{
  ◌∙◌, ap₂, length, ℕ, zero, suc, ◌+◌, ◌-◌, ◌%◌, ◌^◌, ◌≤◌, ◌<◌, ◌≡◌, refl, ap, arith, List, [], ◌∷◌,
  ◌++◌, update, update_self, update_ne,
}
use cmips_cen.Machine.{Uart}
use cmips_cen.Uart.Defs.{uart_fifo_has_data, uart_fifo_push, uart_fifo_get, uart_fifo_clear}

-- The `n` characters from place `i` on, around the ring
unfoldable pub contents : (n i : ℕ) → (ℕ → ℕ) → List ℕ
contents zero i f = []
contents (suc n) i f = f (i % 32) ∷ contents n (i + 1) f

-- What the buffer holds, the oldest first
abbrev pub queued : Uart → List ℕ
queued s = contents s.fifo_count s.fifo_first s.fifo

-- The indices are in the ring, and the end lies `fifo_count` places after the start.
pub record IsRing (s : Uart) : Type 0 where
  pub first_in : s.fifo_first < 32
  pub count_in : s.fifo_count ≤ 32
  pub closed : s.fifo_last ≡ (s.fifo_first + s.fifo_count) % 32

contents-suc : (n i : ℕ) (f : ℕ → ℕ) → contents (suc n) i f ≡ f (i % 32) ∷ contents n (i + 1) f
unfolding contents
contents-suc n i f = refl

contents_mod : (n i j : ℕ) (f : ℕ → ℕ) → i % 32 ≡ j % 32 → contents n i f ≡ contents n j f
unfolding contents
contents_mod zero i j f h = refl
contents_mod (suc n) i j f h = rw (h, contents_mod n (i + 1) (j + 1) f (omega arith))

-- A write outside of the range read is not seen.
contents-update :
    (n i k v : ℕ) (f : ℕ → ℕ)
    → i ≤ k
    → i + n ≤ k
    → k < i + 32
    → contents n i (update f (k % 32) v) ≡ contents n i f
unfolding contents
contents-update zero i k v f p q r = refl
contents-update (suc n) i k v f p q r = rw (
  update_ne f (k % 32) (i % 32) v (omega arith),
  contents-update n (i + 1) k v f (omega arith) (omega arith) (omega arith),
)

contents_snoc :
    (n i : ℕ) (f : ℕ → ℕ) → contents (suc n) i f ≡ contents n i f ++ (f ((i + n) % 32) ∷ [])
unfolding contents
contents_snoc zero i f = ap (λ k. f (k % 32) ∷ []) (omega arith)
contents_snoc (suc n) i f =
    ap (λ q. f (i % 32) ∷ q)
      (contents_snoc n (i + 1) f
        ∙ ap (λ k. contents n (i + 1) f ++ (f (k % 32) ∷ [])) (omega arith))

contents-push :
    (n i last v : ℕ) (f : ℕ → ℕ)
    → n < 32
    → last ≡ (i + n) % 32
    → contents (suc n) i (update f last v) ≡ contents n i f ++ (v ∷ [])
contents-push n i last v f room e = rw (
  e,
  contents_snoc n i (update f ((i + n) % 32) v),
  contents-update n i (i + n) v f (omega arith) (omega arith) (omega arith),
  update_self f ((i + n) % 32) v,
)

contents-cons :
    (n i x : ℕ) (f : ℕ → ℕ) (q : List ℕ)
    → contents n i f ≡ x ∷ q
    → (0 < n) × (f (i % 32) ≡ x) × (contents (n - 1) (i + 1) f ≡ q)
unfolding contents
contents-cons zero i x f q h = cc
contents-cons (suc n) i x f q h =
    (omega arith, cc, (let e : suc n - 1 ≡ n = omega arith in rw e (cc)))

contents-nil : (n i : ℕ) (f : ℕ → ℕ) → contents n i f ≡ [] → n ≡ 0
unfolding contents
contents-nil zero i f h = refl
contents-nil (suc n) i f h = cc

module _ (s : Uart) (ring : IsRing s) where
  push-IsRing : (c : ℕ) → s.fifo_count < 32 → IsRing (uart_fifo_push c s)
  unfolding uart_fifo_push
  push-IsRing c room = ground (arith, ring.first_in, ring.count_in, ring.closed)

  push_contents : (c : ℕ) → s.fifo_count < 32 → queued (uart_fifo_push c s) ≡ queued s ++ (c ∷ [])
  unfolding uart_fifo_push
  push_contents c room =
      let e : (uart_fifo_push c s).fifo_count ≡ suc s.fifo_count = ground arith in
      ap (λ n. contents n s.fifo_first (update s.fifo s.fifo_last c)) e
      ∙ contents-push s.fifo_count s.fifo_first s.fifo_last c s.fifo room ring.closed

  get-IsRing : IsRing (uart_fifo_get s).1
  unfolding uart_fifo_get uart_fifo_has_data
  get-IsRing = ground (arith, ring.first_in, ring.count_in, ring.closed)

  get_contents :
      (x : ℕ) (q : List ℕ)
      → queued s ≡ x ∷ q
      → ((uart_fifo_get s).0 ≡ x) × (queued (uart_fifo_get s).1 ≡ q)
  unfolding uart_fifo_get uart_fifo_has_data
  get_contents x q h =
      let (pos, front, rest) = contents-cons s.fifo_count s.fifo_first x s.fifo q h in
      let e : s.fifo_first % 32 ≡ s.fifo_first = omega (arith, ring.first_in) in
      let next : contents (s.fifo_count - 1) ((s.fifo_first + 1) % 2 ^ 32 % 32) s.fifo ≡ q =
        contents_mod (s.fifo_count - 1) _ (s.fifo_first + 1) s.fifo (omega arith) ∙ rest in
      ground arith

  get_empty : queued s ≡ [] → uart_fifo_get s ≡ (0, s)
  unfolding uart_fifo_get uart_fifo_has_data
  get_empty h = let e = contents-nil s.fifo_count s.fifo_first s.fifo h in ground arith

  -- A character received when the buffer holds 32 of them takes the place of the oldest one.
  pub push_full :
      (c x : ℕ) (q : List ℕ)
      → s.fifo_count ≡ 32
      → queued s ≡ x ∷ q
      → queued (uart_fifo_push c s) ≡ c ∷ q
  unfolding uart_fifo_push
  push_full c x q full h =
      let i = s.fifo_first in
      let (pos, front, rest) = contents-cons s.fifo_count i x s.fifo q h in
      let e : (uart_fifo_push c s).fifo_count ≡ suc 31 = ground arith in
      let at : s.fifo_last ≡ (i + 32) % 32 = omega (arith, ring.closed) in
      let same : (i + 32) % 32 ≡ i % 32 = omega arith in
      let below : s.fifo_count - 1 ≡ 31 = omega arith in
      let unchanged : contents 31 (i + 1) (update s.fifo ((i + 32) % 32) c) ≡ q =
        contents-update 31 (i + 1) (i + 32) c s.fifo (omega arith) (omega arith) (omega arith)
        ∙ (rw below at rest) in
      let head : update s.fifo ((i + 32) % 32) c (i % 32) ≡ c =
        rw same (update_self s.fifo (i % 32) c) in
      ap (λ n. contents n i (update s.fifo s.fifo_last c)) e
      ∙ ap (λ k. contents 32 i (update s.fifo k c)) at
      ∙ contents-suc 31 i (update s.fifo ((i + 32) % 32) c)
      ∙ ap₂ ◌∷◌ head unchanged

-- What the two sides of the port do with the buffer
pub data Event : Type 0 where
  put : ℕ → Event
  get : Event

-- The characters that the `get`s of a run return, 0 for an empty buffer
unfoldable pub uart_run : Uart → List Event → List ℕ
uart_run s [] = []
uart_run s (put c ∷ es) = uart_run (uart_fifo_push c s) es
uart_run s (get ∷ es) = let (c, s') = uart_fifo_get s in c ∷ uart_run s' es

-- The same of an unbounded queue
unfoldable pub queue_run : List ℕ → List Event → List ℕ
queue_run q [] = []
queue_run q (put c ∷ es) = queue_run (q ++ (c ∷ [])) es
queue_run [] (get ∷ es) = 0 ∷ queue_run [] es
queue_run (x ∷ q) (get ∷ es) = x ∷ queue_run q es

-- No `put` of the run meets 32 waiting characters.
abbrev pub Fits : List ℕ → List Event → Type 0
Fits q [] = Unit
Fits q (put c ∷ es) = (length q < 32) × Fits (q ++ (c ∷ [])) es
Fits [] (get ∷ es) = Fits [] es
Fits (x ∷ q) (get ∷ es) = Fits q es

length-contents : (n i : ℕ) (f : ℕ → ℕ) → length (contents n i f) ≡ n
unfolding contents
length-contents zero i f = refl
length-contents (suc n) i f = ap suc (length-contents n (i + 1) f)

uart_run-queue :
    (es : List Event) (q : List ℕ) (s : Uart)
    → IsRing s
    → queued s ≡ q
    → Fits q es
    → uart_run s es ≡ queue_run q es
unfolding uart_run queue_run
uart_run-queue [] q s ring e fits = refl
uart_run-queue (put c ∷ es) q s ring e fits =
    let room : s.fifo_count < 32 =
      omega (arith, length-contents s.fifo_count s.fifo_first s.fifo, ap length e, fits.0) in
    uart_run-queue es (q ++ (c ∷ [])) (uart_fifo_push c s) (push-IsRing s ring c room)
      (push_contents s ring c room ∙ ap (λ r. r ++ (c ∷ [])) e) fits.1
uart_run-queue (get ∷ es) [] s ring e fits =
    rw (get_empty s ring e) (ap (λ r. 0 ∷ r) (uart_run-queue es [] s ring e fits))
uart_run-queue (get ∷ es) (x ∷ q) s ring e fits =
    let (front, back) = get_contents s ring x q e in
    ap₂ ◌∷◌ front (uart_run-queue es q (uart_fifo_get s).1 (get-IsRing s ring) back fits)

-- A fresh or cleared buffer answers every run that never has more than 32 characters waiting as a
-- queue does: each character once, the oldest first.
pub uart_run-clear :
    (s : Uart) (es : List Event) → Fits [] es → uart_run (uart_fifo_clear s) es ≡ queue_run [] es
unfolding uart_fifo_clear contents
uart_run-clear s es fits =
    uart_run-queue es [] (uart_fifo_clear s)
      (record { first_in = omega arith; count_in = omega arith; closed = omega arith }) refl fits
