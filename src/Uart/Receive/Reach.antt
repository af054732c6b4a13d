-- ===== src/Uart/Receive/Reach.antt =====
-- The receiving half from its start on, under any order of its operations.
use mathlib.Core.List.{append_assoc}
use gd32c103_bootloader.Common.{
  ℕ, suc, ◌+◌, ◌-◌, ◌≡◌, ◌≢◌, refl, sym, ap, subst, ◌∙◌, arith, true, false, ◌==◌, ltb, Bool-cases,
  inl, inr, if◌then◌else◌, List, [], ◌∷◌, ◌++◌, length, take, drop, take-append-drop, none, some,
  All, u32,
}
use gd32c103_bootloader.Uart.Macros.{DlMacros, first}
use gd32c103_bootloader.Uart.{
  Store, TakenElement, no_element, no_buffer, got, take_element, free_element, tx_dma_data_max_cnt,
}
use gd32c103_bootloader.Uart.Own.{
  Owns, Owns-Shuffle, Shuffle, keep, trans, swap, Shuffle-append, Shuffle-in, Shuffle-out,
  buffer_of,
}
use gd32c103_bootloader.Uart.Own.Supply.{
  Supplies, exhausted, supplied, take_element-Supplies, free_element-Owns,
}
use gd32c103_bootloader.Uart.Send.{Transfer}
use gd32c103_bootloader.Uart.Send.Queue.{
  frame_of, frames_of, frames_of-agree, frames_of-free_element,
}
use gd32c103_bootloader.Uart.Receive.{
  UartRx, Run, ok, Flags, flag_clear, idle, gd32_uart_buf_size, receive_into, gd32_uart_isr,
  start_receiving, get_rx_block, free_rx_block,
}
use gd32c103_bootloader.Uart.Receive.Blocks.{
  IsReceiving, AfterNext, after, filled, dma_recv_isr-AfterNext,
}

-- What came in a block when the line fell idle.
abbrev pub block_of : Store → ℕ → ℕ → Transfer
block_of s counter c = (buffer_of s c, u32 (gd32_uart_buf_size + 4294967296 - counter))

frames_of-drop : (s : Store) (m : List ℕ) → frames_of s (drop 1 m) ≡ drop 1 (frames_of s m)
frames_of-drop s [] = refl
frames_of-drop s (a ∷ m) = refl

-- What the list has after a block came.
joined_frames :
    (s : Store) (counter c : ℕ) (l r : List ℕ)
    → All (λ b. buffer_of s b ≢ buffer_of s c) (l ++ r)
    → frames_of (record s { element = filled s counter c }) (l ++ (c ∷ []))
      ≡ frames_of s l ++ (block_of s counter c ∷ [])
joined_frames s counter c [] r h = ground arith
joined_frames s counter c (b ∷ l) r h =
    let ne : b ≢ c = λ e. h.0 (ap (buffer_of s) e) in
    let same : (b == c) ≡ false = ground (arith, ne) in
    rw (same, joined_frames s counter c l r h.1) refl

module _ (dl : DlMacros) where
  -- Before `gd32_dma_config`: an empty list, and pools of which nothing is taken.
  pub record IsStart (r : UartRx dl) : Type 0 where
    pub list : r.rx_block_list ≡ dl.empty
    pub owns : Owns r.store tx_dma_data_max_cnt []

  -- The states after some operations, with the blocks that tasks hold, and what came so far, the
  -- oldest first. A task frees only what it was given. The interrupt runs with any fuel from two
  -- rounds on.
  pub data Reach : UartRx dl → List ℕ → List Transfer → Type 0 where
    start : (r : UartRx dl) → IsStart r → Reach (start_receiving dl r) [] []
    line_idle :
        {r : UartRx dl} {held : List ℕ} {came : List Transfer} (fuel counter c : ℕ)
        (flags flags' : Flags) (r' : UartRx dl)
        → Reach r held came
        → flags idle ≡ true
        → r.current_rx_block ≡ some c
        → gd32_uart_isr dl (suc (suc fuel)) counter flags r ≡ ok (flags', r')
        → Reach r' held (came ++ (block_of r.store counter c ∷ []))
    get :
        {r : UartRx dl} {held : List ℕ} {came : List Transfer} (a : ℕ) (r' : UartRx dl)
        → Reach r held came
        → get_rx_block dl r ≡ (some a, r')
        → Reach r' (a ∷ held) came
    free :
        {r : UartRx dl} {a : ℕ} {held : List ℕ} {came : List Transfer}
        → Reach r (a ∷ held) came
        → Reach (free_rx_block dl a r) held came
    pass :
        {r : UartRx dl} {held held' : List ℕ} {came : List Transfer}
        → Reach r held came
        → Shuffle held held'
        → Reach r held' came

  -- What holds in all of them: the list has the last of what came.
  pub record IsServing (r : UartRx dl) (c : ℕ) (l held : List ℕ) (gone came : List Transfer)
      : Type 0 where
    pub receiving : IsReceiving dl r c l held
    pub order : gone ++ frames_of r.store l ≡ came
    pub channel : r.channel ≡ some (buffer_of r.store c, gd32_uart_buf_size)

  abbrev Served : UartRx dl → List ℕ → List Transfer → Type 0
  Served r held came =
      (c : ℕ) × (l : List ℕ) × (gone : List Transfer) × IsServing r c l held gone came

  start-Served : (r : UartRx dl) → IsStart r → Served (start_receiving dl r) [] []
  unfolding start_receiving receive_into
  start-Served r s =
      go (take_element r.store) (take_element-Supplies r.store tx_dma_data_max_cnt [] s.owns)
    where
      go :
          (x : TakenElement × Store)
          → Supplies r.store tx_dma_data_max_cnt [] x
          → Served
              (elim x.0 [
                | no_element ↦ record r { store = x.1; current_rx_block = none; channel = none }
                | no_buffer ↦ record r { store = x.1; current_rx_block = none; channel = none }
                | got a ↦ receive_into dl a x.1 r
              ])
              []
              []
      go _ (exhausted full) = absurd (omega (arith, full))
      go _ (supplied a s' o fresh other) = (
        a,
        [],
        [],
        record {
          receiving = record {
            waiting = ap dl.items s.list ∙ dl.items-empty;
            current = refl;
            owns = o;
          };
          order = refl;
          channel = refl;
        },
      )

  served_lem :
      (s : Store) (counter c : ℕ) (l held : List ℕ) (gone came : List Transfer) (r' : UartRx dl)
      (l' : List ℕ)
      → All (λ b. buffer_of s b ≢ buffer_of s c) (l ++ held)
      → gone ++ frames_of s l ≡ came
      → l' ≡ (
          if ltb (length ((l ++ (c ∷ [])) ++ held)) tx_dma_data_max_cnt
          then l ++ (c ∷ [])
          else drop 1 (l ++ (c ∷ [])))
      → All (λ b. r'.store.element b ≡ filled s counter c b) l'
      → (gone' : List Transfer) × (gone' ++ frames_of r'.store l'
          ≡ came ++ (block_of s counter c ∷ []))
  served_lem s counter c l held gone came r' l' fresh order which agree =
      let m = l ++ (c ∷ []) in
      let s' : Store = record s { element = filled s counter c } in
      let frames = frames_of-agree s' r'.store l' agree in
      let joined : gone ++ frames_of s' m ≡ came ++ (block_of s counter c ∷ []) =
        ap (λ (k : List Transfer). gone ++ k) (joined_frames s counter c l held fresh)
        ∙ sym (append_assoc gone (frames_of s l) (block_of s counter c ∷ []))
        ∙ ap (λ (k : List Transfer). k ++ (block_of s counter c ∷ [])) order in
      elim (Bool-cases (ltb (length (m ++ held)) tx_dma_data_max_cnt)) [
        | inl less ↦
            (let same : l' ≡ m = which ∙ rw less refl in
              (
                gone,
                ap (λ (k : List Transfer). gone ++ k) (frames ∙ ap (frames_of s') same) ∙ joined,
              ))
        | inr full ↦
            (let same : l' ≡ drop 1 m = which ∙ rw full refl in
              (
                gone ++ take 1 (frames_of s' m),
                ap (λ (k : List Transfer). gone ++ take 1 (frames_of s' m) ++ k)
                      (frames ∙ ap (frames_of s') same ∙ frames_of-drop s' m)
                    ∙ append_assoc gone (take 1 (frames_of s' m)) (drop 1 (frames_of s' m))
                    ∙ ap (λ (k : List Transfer). gone ++ k) (take-append-drop 1 (frames_of s' m))
                    ∙ joined,
              ))
      ]

  -- What the interrupt of an idle line leaves, as the relation needs it.
  idle_lem :
      (fuel counter c : ℕ) (r : UartRx dl) (l held : List ℕ) (gone came : List Transfer)
      → IsServing r c l held gone came
      → (x : Run (UartRx dl)) → AfterNext dl (filled r.store counter c) (l ++ (c ∷ [])) held x
      → (r' : UartRx dl) × (x ≡ ok r') × Served r' held (came ++ (block_of r.store counter c ∷ []))
  idle_lem fuel counter c r l held gone came q _ (after r' a l' which receiving channel agree) =
      let (gone', order) =
        served_lem r.store counter c l held gone came r' l' q.receiving.owns.distinct.0 q.order
          which agree in
      (r', refl, (a, l', gone', record { receiving = receiving; order = order; channel = channel }))

  -- The interrupt of an idle line returns, from every state in which a block is under way.
  pub isr-Served :
      (fuel counter c : ℕ) (flags : Flags) (r : UartRx dl) (l held : List ℕ)
      (gone came : List Transfer)
      → flags idle ≡ true
      → IsServing r c l held gone came
      → (r' : UartRx dl) × (gd32_uart_isr dl (suc (suc fuel)) counter flags r
          ≡ ok (flag_clear idle flags, r'))
        × Served r' held (came ++ (block_of r.store counter c ∷ []))
  unfolding gd32_uart_isr
  isr-Served fuel counter c flags r l held gone came on q =
      let off : UartRx dl = record r { channel = none } in
      let receiving : IsReceiving dl off c l held = record {
        waiting = q.receiving.waiting;
        current = q.receiving.current;
        owns = q.receiving.owns;
      } in
      let next = dma_recv_isr-AfterNext dl fuel counter off c l held receiving in
      let (r', e, served) = idle_lem fuel counter c r l held gone came q _ next in
      (r', rw (gd32_uart_isr, on, e) refl, served)

  get-Served :
      (r r' : UartRx dl) (a c : ℕ) (l held : List ℕ) (gone came : List Transfer)
      → IsServing r c l held gone came
      → get_rx_block dl r ≡ (some a, r')
      → Served r' (a ∷ held) came
  unfolding get_rx_block
  get-Served r r' a c [] held gone came q e =
      let top : dl.head r.rx_block_list ≡ none =
        dl.head-first r.rx_block_list ∙ ap first q.receiving.waiting in
      let got : get_rx_block dl r ≡ (none, r) = rw (get_rx_block, top) refl in absurd cc
  get-Served r r' a c (x ∷ l) held gone came q e =
      let top : dl.head r.rx_block_list ≡ some x =
        dl.head-first r.rx_block_list ∙ ap first q.receiving.waiting in
      let left : UartRx dl = record r { rx_block_list = dl.delete r.rx_block_list x } in
      let got : get_rx_block dl r ≡ (some x, left) = rw (get_rx_block, top) refl in
      let same : x ≡ a = cc in
      let state : left ≡ r' = cc in
      let s : IsServing left c l (x ∷ held) (gone ++ (frame_of r.store x ∷ [])) came = record {
        receiving = record {
          waiting = dl.items-delete r.rx_block_list x l q.receiving.waiting;
          current = q.receiving.current;
          owns = Owns-Shuffle (keep c (Shuffle-in x l held)) q.receiving.owns;
        };
        order = append_assoc gone (frame_of r.store x ∷ []) (frames_of r.store l) ∙ q.order;
        channel = q.channel;
      } in
      subst (λ (z : UartRx dl). Served z (a ∷ held) came) state
        (subst (λ (y : ℕ). Served left (y ∷ held) came) same
          (c, l, gone ++ (frame_of r.store x ∷ []), s))

  free-Served :
      (r : UartRx dl) (a c : ℕ) (l held : List ℕ) (gone came : List Transfer)
      → IsServing r c l (a ∷ held) gone came
      → Served (free_rx_block dl a r) held came
  unfolding free_rx_block free_element
  free-Served r a c l held gone came q =
      let front = trans (keep c (Shuffle-out a l held)) (swap c a (l ++ held)) in
      (
        c,
        l,
        gone,
        record {
          receiving = record {
            waiting = q.receiving.waiting;
            current = q.receiving.current;
            owns =
                free_element-Owns r.store tx_dma_data_max_cnt a (c ∷ (l ++ held))
                  (Owns-Shuffle front q.receiving.owns);
          };
          order = ap (λ k. gone ++ k) (frames_of-free_element r.store a l) ∙ q.order;
          channel = q.channel;
        },
      )

  pub Reach-Served :
      {r : UartRx dl} {held : List ℕ} {came : List Transfer}
      → Reach r held came
      → Served r held came
  Reach-Served (start r s) = start-Served r s
  Reach-Served (line_idle {r} {held} {came} fuel counter c flags flags' r' reach on current e) =
      let (c', l, gone, q) = Reach-Served reach in
      let (r'', e', served) = isr-Served fuel counter c' flags r l held gone came on q in
      let now = q.receiving.current in
      let same : c' ≡ c = cc in
      let state : r'' ≡ r' = cc in
      subst (λ (z : UartRx dl). Served z held (came ++ (block_of r.store counter c ∷ []))) state
        (subst (λ (y : ℕ). Served r'' held (came ++ (block_of r.store counter y ∷ []))) same served)
  Reach-Served (get {r} {held} {came} a r' reach e) =
      let (c, l, gone, q) = Reach-Served reach in get-Served r r' a c l held gone came q e
  Reach-Served (free {r} {a} {held} {came} reach) =
      let (c, l, gone, q) = Reach-Served reach in free-Served r a c l held gone came q
  Reach-Served (pass {r} {held} {held'} {came} reach s) =
      let (c, l, gone, q) = Reach-Served reach in
      (
        c,
        l,
        gone,
        record {
          receiving = record {
            waiting = q.receiving.waiting;
            current = q.receiving.current;
            owns = Owns-Shuffle (keep c (Shuffle-append l s)) q.receiving.owns;
          };
          order = q.order;
          channel = q.channel;
        },
      )
