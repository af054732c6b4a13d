-- ===== src/Tasks/Drain.antt =====
-- What a round of `xlinkTask` of src/main.c does with the blocks that came.
use gd32c103_bootloader.Common.{
  ℕ, zero, suc, ◌<◌, arith, ◌≡◌, refl, sym, ap, ◌∙◌, List, [], ◌∷◌, ◌++◌, length, Option,
  Option-cases, inl, inr, none, some,
}
use mathlib.Core.List.{append_assoc}
use gd32c103_bootloader.Boot.{Memory}
use gd32c103_bootloader.Xlink.Context.{Context, Call, process_rx, process_all, calling}
use gd32c103_bootloader.Uart.{Store, free_element}
use gd32c103_bootloader.Uart.Macros.{DlMacros, first}
use gd32c103_bootloader.Uart.Send.{Transfer}
use gd32c103_bootloader.Uart.Receive.{UartRx, Run, ok, fault, get_rx_block, free_rx_block}
use gd32c103_bootloader.Uart.Receive.Reach as Receiving
use gd32c103_bootloader.Tasks.{block_bytes, Drained, after_calls, drain}

-- The bytes of some blocks, one block after the other.
abbrev pub blocks_bytes : Memory → Store → List ℕ → List ℕ
blocks_bytes m s [] = []
blocks_bytes m s (a ∷ l) = block_bytes m s a ++ blocks_bytes m s l

-- What follows the bytes of a part.
abbrev then_process : Option (List Call × Context) → List ℕ → Option (List Call × Context)
then_process none ys = none
then_process (some (calls, c)) ys = calling calls (process_all c ys)

calling-calling :
    (k l : List Call) (o : Option (List Call × Context))
    → calling k (calling l o) ≡ calling (k ++ l) o
calling-calling k l none = refl
calling-calling k l (some (more, c)) = ap (λ x. some (x, c)) (sym (append_assoc k l more))

calling-nil : (o : Option (List Call × Context)) → calling [] o ≡ o
calling-nil none = refl
calling-nil (some p) = refl

calling-then_process :
    (k : List Call) (o : Option (List Call × Context)) (ys : List ℕ)
    → calling k (then_process o ys) ≡ then_process (calling k o) ys
calling-then_process k none ys = refl
calling-then_process k (some (calls, c)) ys = calling-calling k calls (process_all c ys)

process_all-append :
    (c : Context) (xs ys : List ℕ) → process_all c (xs ++ ys) ≡ then_process (process_all c xs) ys
unfolding process_all
process_all-append c [] ys = sym (calling-nil (process_all c ys))
process_all-append c (x ∷ xs) ys = elim (Option-cases (process_rx c x)) [
  | inl e ↦ rw (process_all, e) refl
  | inr (r, e) ↦
      rw (process_all, e, process_all-append r.2 xs ys)
        (calling-then_process r.1 (process_all r.2 xs) ys)
]

blocks_bytes-free :
    (m : Memory) (s : Store) (a : ℕ) (l : List ℕ)
    → blocks_bytes m (free_element s a) l ≡ blocks_bytes m s l
unfolding free_element block_bytes
blocks_bytes-free m s a [] = refl
blocks_bytes-free m s a (b ∷ l) = ap (λ k. block_bytes m s b ++ k) (blocks_bytes-free m s a l)

module _ (dl : DlMacros) where
  -- What a round gives, by what processing all bytes gives.
  abbrev pub outcome : Option (List Call × Context) → UartRx dl → Run (Drained dl)
  outcome none r = fault
  outcome (some (calls, c)) r = ok (calls, (c, r))

  after_calls-outcome :
      (k : List Call) (o : Option (List Call × Context)) (r : UartRx dl)
      → after_calls dl k (outcome o r) ≡ outcome (calling k o) r
  after_calls-outcome k none r = refl
  after_calls-outcome k (some (calls, c)) r = refl

  abbrev Drains : ℕ → Memory → UartRx dl → Context → List ℕ → List ℕ → List Transfer → Type 0
  Drains fuel m r c l held came =
      (r' : UartRx dl) × Receiving.Reach dl r' held came
      × (dl.items r'.rx_block_list ≡ [])
      × (drain dl fuel m r c ≡ outcome (process_all c (blocks_bytes m r.store l)) r')

  got_none : (r : UartRx dl) → dl.items r.rx_block_list ≡ [] → get_rx_block dl r ≡ (none, r)
  unfolding get_rx_block
  got_none r e =
      let top : dl.head r.rx_block_list ≡ none = dl.head-first r.rx_block_list ∙ ap first e in
      rw (get_rx_block, top) refl

  abbrev without : UartRx dl → ℕ → UartRx dl
  without r a = record r { rx_block_list = dl.delete r.rx_block_list a }

  got_some :
      (r : UartRx dl) (a : ℕ) (l : List ℕ)
      → dl.items r.rx_block_list ≡ a ∷ l
      → get_rx_block dl r ≡ (some a, without r a)
  unfolding get_rx_block
  got_some r a l e =
      let top : dl.head r.rx_block_list ≡ some a = dl.head-first r.rx_block_list ∙ ap first e in
      rw (get_rx_block, top) refl

  freed_lem :
      (m : Memory) (r : UartRx dl) (a : ℕ) (l : List ℕ)
      → dl.items r.rx_block_list ≡ a ∷ l
      → (dl.items (free_rx_block dl a (without r a)).rx_block_list ≡ l)
        × (blocks_bytes m (free_rx_block dl a (without r a)).store l ≡ blocks_bytes m r.store l)
  unfolding free_rx_block
  freed_lem m r a l e = (dl.items-delete r.rx_block_list a l e, blocks_bytes-free m r.store a l)

  drain-none :
      (fuel : ℕ) (m : Memory) (r : UartRx dl) (c : Context)
      → get_rx_block dl r ≡ (none, r)
      → drain dl (suc fuel) m r c ≡ ok ([], (c, r))
  unfolding drain
  drain-none fuel m r c got =
      let got0 : (get_rx_block dl r).0 ≡ none = ap (λ x. x.0) got in
      let got1 : (get_rx_block dl r).1 ≡ r = ap (λ x. x.1) got in rw (drain, got0, got1) refl

  -- What follows a block.
  abbrev then_drain : ℕ → Memory → UartRx dl → ℕ → Option (List Call × Context) → Run (Drained dl)
  then_drain fuel m r a none = fault
  then_drain fuel m r a (some (calls, c)) =
      after_calls dl calls (drain dl fuel m (free_rx_block dl a r) c)

  drain-some :
      (fuel : ℕ) (m : Memory) (r r1 : UartRx dl) (c : Context) (a : ℕ)
      → get_rx_block dl r ≡ (some a, r1)
      → drain dl (suc fuel) m r c
        ≡ then_drain fuel m r1 a (process_all c (block_bytes m r1.store a))
  unfolding drain
  drain-some fuel m r r1 c a got =
      let got0 : (get_rx_block dl r).0 ≡ some a = ap (λ x. x.0) got in
      let got1 : (get_rx_block dl r).1 ≡ r1 = ap (λ x. x.1) got in
      elim (Option-cases (process_all c (block_bytes m r1.store a))) [
        | inl f ↦ rw (drain, got0, got1, f) refl
        | inr (p, f) ↦ rw (drain, got0, got1, f, got1) refl
      ]

  drain-fault :
      (fuel : ℕ) (m : Memory) (r r1 r' : UartRx dl) (c : Context) (a : ℕ) (ys : List ℕ)
      → get_rx_block dl r ≡ (some a, r1)
      → process_all c (block_bytes m r1.store a) ≡ none
      → drain dl (suc fuel) m r c ≡ outcome (process_all c (block_bytes m r1.store a ++ ys)) r'
  drain-fault fuel m r r1 r' c a ys got f =
      let joined : process_all c (block_bytes m r1.store a ++ ys) ≡ none =
        process_all-append c (block_bytes m r1.store a) ys ∙ ap (λ o. then_process o ys) f in
      drain-some fuel m r r1 c a got
      ∙ ap (then_drain fuel m r1 a) f
      ∙ sym (ap (λ o. outcome o r') joined)

  -- A block and what follows it make the calls that their bytes together make.
  drain-next :
      (fuel : ℕ) (m : Memory) (r r1 r' : UartRx dl) (c : Context) (a : ℕ) (ys : List ℕ)
      (p : List Call × Context)
      → get_rx_block dl r ≡ (some a, r1)
      → process_all c (block_bytes m r1.store a) ≡ some p
      → drain dl fuel m (free_rx_block dl a r1) p.1 ≡ outcome (process_all p.1 ys) r'
      → drain dl (suc fuel) m r c ≡ outcome (process_all c (block_bytes m r1.store a ++ ys)) r'
  drain-next fuel m r r1 r' c a ys p got f rest =
      let joined : process_all c (block_bytes m r1.store a ++ ys)
          ≡ calling p.0 (process_all p.1 ys) =
        process_all-append c (block_bytes m r1.store a) ys ∙ ap (λ o. then_process o ys) f in
      drain-some fuel m r r1 c a got
      ∙ ap (then_drain fuel m r1 a) f
      ∙ ap (after_calls dl p.0) rest
      ∙ after_calls-outcome p.0 (process_all p.1 ys) r'
      ∙ sym (ap (λ o. outcome o r') joined)

  drain-Drains :
      (l : List ℕ) (fuel : ℕ) (m : Memory) (r : UartRx dl) (c : Context) (held : List ℕ)
      (came : List Transfer)
      → length l < fuel
      → Receiving.Reach dl r held came
      → dl.items r.rx_block_list ≡ l
      → Drains fuel m r c l held came
  unfolding process_all
  drain-Drains l zero m r c held came enough reach e = absurd (omega arith)
  drain-Drains [] (suc fuel) m r c held came enough reach e =
      (r, reach, e, drain-none fuel m r c (got_none r e))
  drain-Drains (a ∷ l) (suc fuel) m r c held came enough reach e =
      let got = got_some r a l e in
      let r1 = without r a in
      let reach2 = Receiving.Reach.free (Receiving.Reach.get a r1 reach got) in
      let (items, bytes) = freed_lem m r a l e in
      let r2 = free_rx_block dl a r1 in
      let go = λ (c' : Context). drain-Drains l fuel m r2 c' held came (omega arith) reach2 items in
      let same = λ (c' : Context) (r' : UartRx dl). ap (λ x. outcome (process_all c' x) r') bytes in
      let ys = blocks_bytes m r.store l in
      elim (Option-cases (process_all c (block_bytes m r.store a))) [
        | inl f ↦
            (let (r', reach', empty, then) = go c in
              (r', reach', empty, drain-fault fuel m r r1 r' c a ys got f))
        | inr (p, f) ↦
            (let (r', reach', empty, then) = go p.1 in
              (r', reach', empty, drain-next fuel m r r1 r' c a ys p got f (then ∙ same p.1 r')))
      ]

  -- From every state of the receiver that its operations reach, a round of the task with more fuel
  -- than the list has blocks passes their bytes to the context block by block, in the order in which
  -- they came: it makes the calls that processing all these bytes makes, or faults if processing
  -- them does. It leaves a state that the operations reach, with an empty list and with the
  -- same elements held by the task.
  pub Reach-drain :
      {r : UartRx dl} {held : List ℕ} {came : List Transfer} (fuel : ℕ) (m : Memory) (c : Context)
      → length (dl.items r.rx_block_list) < fuel
      → Receiving.Reach dl r held came
      → (r' : UartRx dl) × Receiving.Reach dl r' held came
        × (dl.items r'.rx_block_list ≡ [])
        × (drain dl fuel m r c
            ≡ outcome (process_all c (blocks_bytes m r.store (dl.items r.rx_block_list))) r')
  Reach-drain {r} {held} {came} fuel m c enough reach =
      drain-Drains (dl.items r.rx_block_list) fuel m r c held came enough reach refl
