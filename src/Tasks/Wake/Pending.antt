-- ===== src/Tasks/Wake/Pending.antt =====
-- The task never waits while a block is in the list.
use gd32c103_bootloader.Common.{
  ℕ, zero, suc, ◌≡◌, ◌<◌, ◌≤◌, refl, ap, sym, subst, ◌∙◌, arith, Bool, true, false, ◌||◌, ltb,
  if◌then◌else◌, [], ◌∷◌, ◌++◌, length, length-append, Option, none, some,
}
use gd32c103_bootloader.Uart.Macros.{DlMacros}
use gd32c103_bootloader.Uart.{
  Store, DmaElement, TakenElement, no_element, no_buffer, got, take_element,
}
use gd32c103_bootloader.Uart.Receive.{
  UartRx, Run, ok, fault, hang, Flags, idle, flag_clear, clear_errors, gd32_uart_isr, dma_recv_isr,
  drop_oldest, next_block, indicate, append_current, get_rx_block, free_rx_block, receive_into,
}
use gd32c103_bootloader.Uart.Device.{gd32_uart_set_rx_indicate}
use gd32c103_bootloader.Tasks.Wake.{
  Place, waits, takes, handles, Awake, uart_rx_ind, on_interrupt, task_step, task_steps, Runs,
  begin, interrupt, step,
}

module _ (dl : DlMacros) where
  -- The callback stays as it is, and so do its calls.
  record Quiet (r r' : UartRx dl) : Type 0 where
    callback : r'.rx_indicate ≡ r.rx_indicate
    calls : r'.indicated ≡ r.indicated

  drop_oldest-Quiet : (r : UartRx dl) → Quiet r (drop_oldest dl r)
  unfolding drop_oldest
  drop_oldest-Quiet r = go (dl.head r.rx_block_list)
    where
      go :
          (h : Option ℕ)
          → Quiet r (elim h [
            | none ↦ r
            | some a ↦ record r {
              rx_block_list = dl.delete r.rx_block_list a;
              store = gd32c103_bootloader.Uart.free_element r.store a;
            }
          ])
      go none = record { callback = refl; calls = refl }
      go (some a) = record { callback = refl; calls = refl }

  next_block-Quiet : (fuel : ℕ) (r r' : UartRx dl) → next_block dl fuel r ≡ ok r' → Quiet r r'
  unfolding next_block receive_into
  next_block-Quiet zero r r' e = absurd cc
  next_block-Quiet (suc fuel) r r' e =
      go (next_block-Quiet fuel) (take_element r.store).0 (take_element r.store).1 e
    where
      go :
          (rest : (a b : UartRx dl) → next_block dl fuel a ≡ ok b → Quiet a b)
          (taken : TakenElement) (s : Store)
          → (elim taken [
            | no_element ↦
                next_block dl fuel
                  (drop_oldest dl (record r { store = s; current_rx_block = none }))
            | no_buffer ↦ ok (record r { store = s; current_rx_block = none })
            | got a ↦ ok (receive_into dl a s r)
          ])
            ≡ ok r'
          → Quiet r r'
      go rest no_element s f =
          let dropped = record r { store = s; current_rx_block = none } in
          let q1 = drop_oldest-Quiet dropped in
          let q2 = rest (drop_oldest dl dropped) r' f in
          record { callback = q2.callback ∙ q1.callback; calls = q2.calls ∙ q1.calls }
      go rest no_buffer s f =
          let same : record r { store = s; current_rx_block = none } ≡ r' = cc in
          record {
            callback = ap (λ z. z.rx_indicate) (sym same);
            calls = ap (λ z. z.indicated) (sym same);
          }
      go rest (got a) s f =
          let same : receive_into dl a s r ≡ r' = cc in
          record {
            callback = ap (λ z. z.rx_indicate) (sym same);
            calls = ap (λ z. z.indicated) (sym same);
          }

  -- The interrupt of an idle line leaves the callback and calls it.
  record Called (r r' : UartRx dl) : Type 0 where
    callback : r'.rx_indicate ≡ r.rx_indicate
    more : length r.indicated < length r'.indicated

  indicate-Called : (a z : UartRx dl) → a.rx_indicate ≡ true → indicate dl a ≡ ok z → Called a z
  unfolding indicate
  indicate-Called a z on e = go a.rx_indicate (dl.head a.rx_block_list) on e
    where
      called : ℕ → UartRx dl
      called h = record a { indicated = a.indicated ++ ((a.store.element h).size ∷ []) }

      go :
          (is_set : Bool) (h : Option ℕ)
          → is_set ≡ true
          → (if is_set then elim h [ none ↦ fault | some x ↦ ok (called x) ] else ok a) ≡ ok z
          → Called a z
      go false h off f = absurd cc
      go true none set f = absurd cc
      go true (some x) set f =
          let same : called x ≡ z = cc in
          let size = length-append a.indicated ((a.store.element x).size ∷ []) in
          let calls : length a.indicated < length (called x).indicated = omega (arith, size) in
          record {
            callback = ap (λ y. y.rx_indicate) (sym same);
            more = subst (λ (y : UartRx dl). length a.indicated < length y.indicated) same calls;
          }

  dma_recv_isr-Called :
      (fuel counter : ℕ) (r r' : UartRx dl)
      → r.rx_indicate ≡ true
      → dma_recv_isr dl fuel counter r ≡ ok r'
      → Called r r'
  unfolding dma_recv_isr append_current
  dma_recv_isr-Called fuel counter r r' on e = go r.current_rx_block e
    where
      after :
          (x : Run (UartRx dl))
          → ((z : UartRx dl) → x ≡ ok z → Called r z)
          → (elim x [ ok z ↦ next_block dl fuel z | fault ↦ fault | hang ↦ hang ]) ≡ ok r'
          → Called r r'
      after (ok z) called f =
          let first = called z refl in
          let quiet = next_block-Quiet fuel z r' f in
          record {
            callback = quiet.callback ∙ first.callback;
            more = subst (λ l. length r.indicated < length l) (sym quiet.calls) first.more;
          }
      after fault called f = absurd cc
      after hang called f = absurd cc

      go :
          (current : Option ℕ)
          → (elim current [
            | none ↦ fault
            | some c ↦ elim (indicate dl (append_current dl counter c r)) [
              | ok z ↦ next_block dl fuel z
              | fault ↦ fault
              | hang ↦ hang
            ]
          ])
            ≡ ok r'
          → Called r r'
      go none f = absurd cc
      go (some c) f =
          after (indicate dl (append_current dl counter c r))
            (λ z g.
              let q = indicate-Called (append_current dl counter c r) z on g in
              record { callback = q.callback; more = q.more })
            f

  -- What holds from the first wait on.
  record IsPending (x : Awake dl) : Type 0 where
    callback : x.rx.rx_indicate ≡ true
    nothing : x.place ≡ waits → x.semaphore ≡ false → dl.head x.rx.rx_block_list ≡ none

  isr-IsPending :
      (x x' : Awake dl) (fuel counter : ℕ) (flags : Flags)
      → IsPending x
      → on_interrupt dl fuel counter flags x ≡ ok x'
      → IsPending x'
  unfolding on_interrupt gd32_uart_isr uart_rx_ind
  isr-IsPending x x' fuel counter flags p e = go (flags idle) e
    where
      next : UartRx dl → Awake dl
      next r = record {
        rx = r;
        semaphore = ltb (length x.rx.indicated) (length r.indicated) || x.semaphore;
        place = x.place;
      }

      idled : Run (UartRx dl) → Run (Flags × UartRx dl)
      idled y = elim y [ ok r ↦ ok (flag_clear idle flags, r) | fault ↦ fault | hang ↦ hang ]

      finish : Run (Flags × UartRx dl) → Run (Awake dl)
      finish y = elim y [ ok (flags', r) ↦ ok (next r) | fault ↦ fault | hang ↦ hang ]

      was : UartRx dl
      was = record x.rx { channel = none }

      line :
          (y : Run (UartRx dl))
          → ((r : UartRx dl) → y ≡ ok r → Called was r)
          → finish (idled y) ≡ ok x'
          → IsPending x'
      line (ok r) called f =
          let c = called r refl in
          let more = c.more in
          let same : next r ≡ x' = cc in
          let given : (next r).semaphore ≡ true = ground arith in
          subst IsPending same
            (record { callback = c.callback ∙ p.callback; nothing = λ here empty. absurd cc })
      line fault called f = absurd cc
      line hang called f = absurd cc

      go :
          (set : Bool)
          → finish (
              if set
              then idled (dma_recv_isr dl fuel counter was)
              else ok (clear_errors flags, x.rx))
            ≡ ok x'
          → IsPending x'
      go true f =
          line (dma_recv_isr dl fuel counter was)
            (λ r g. dma_recv_isr-Called fuel counter was r p.callback g) f
      go false f =
          let same : next x.rx ≡ x' = cc in
          let no_call : ltb (length x.rx.indicated) (length x.rx.indicated) ≡ false =
            ground arith in
          subst IsPending same (record {
            callback = p.callback;
            nothing =
                λ here empty. p.nothing here (ap (λ b. b || x.semaphore) (sym no_call) ∙ empty);
          })

  step-IsPending : (x : Awake dl) → IsPending x → IsPending (task_step dl x)
  unfolding task_step get_rx_block free_rx_block
  step-IsPending x p = go x.place x.semaphore refl p.nothing
    where
      taken : Option ℕ × UartRx dl → Awake dl
      taken b = elim b.0 [
        | none ↦ record x { rx = b.1; place = waits }
        | some a ↦ record x { rx = b.1; place = handles a }
      ]

      take :
          (h : Option ℕ)
          → dl.head x.rx.rx_block_list ≡ h
          → IsPending (
              taken (elim h [
                | none ↦ (none, x.rx)
                | some a ↦ (some a, record x.rx { rx_block_list = dl.delete x.rx.rx_block_list a })
              ]))
      take none e = record { callback = p.callback; nothing = λ here empty. e }
      take (some a) e = record { callback = p.callback; nothing = λ here empty. absurd cc }

      go :
          (place : Place) (given : Bool)
          → x.semaphore ≡ given
          → (place ≡ waits → given ≡ false → dl.head x.rx.rx_block_list ≡ none)
          → IsPending (elim place [
            | waits ↦
                if given
                then record x { semaphore = false; place = takes }
                else record x { place = waits }
            | takes ↦ taken (get_rx_block dl x.rx)
            | handles a ↦ record x { rx = free_rx_block dl a x.rx; place = takes }
          ])
      go waits true e n = record { callback = p.callback; nothing = λ here empty. absurd cc }
      go waits false e n = record { callback = p.callback; nothing = λ here empty. n refl refl }
      go takes given e n = take (dl.head x.rx.rx_block_list) refl
      go (handles a) given e n = record { callback = p.callback; nothing = λ here empty. absurd cc }

  Runs-IsPending : {x : Awake dl} → Runs dl x → IsPending x
  unfolding gd32_uart_set_rx_indicate
  Runs-IsPending (begin r empty) = record { callback = refl; nothing = λ here no_token. empty }
  Runs-IsPending (interrupt x x' fuel counter flags before e) =
      isr-IsPending x x' fuel counter flags (Runs-IsPending before) e
  Runs-IsPending (step x before) = step-IsPending x (Runs-IsPending before)

  at_hand :
      (r : UartRx dl) (given : Bool) (a : ℕ)
      → dl.head r.rx_block_list ≡ some a
      → (task_step dl (record { rx = r; semaphore = given; place = takes })).place ≡ handles a
  unfolding task_step get_rx_block
  at_hand r given a e = rw (task_step, get_rx_block, e) refl

  soon :
      (r : UartRx dl) (given : Bool) (place : Place) (a : ℕ)
      → (place ≡ waits → given ≡ false → dl.head r.rx_block_list ≡ none)
      → dl.head r.rx_block_list ≡ some a
      → (n : ℕ) × (n ≤ 2)
        × ((task_steps dl n (record { rx = r; semaphore = given; place = place })).place
            ≡ handles a)
  unfolding task_steps task_step free_rx_block
  soon r true waits a n e = (2, omega arith, at_hand r false a e)
  soon r false waits a n e = absurd (let empty = n refl refl in cc)
  soon r given takes a n e = (1, omega arith, at_hand r given a e)
  soon r given (handles b) a n e = (2, omega arith, at_hand (free_rx_block dl b r) given a e)

  -- The task has set its callback while no block was in the list, and waits for the first time. From
  -- then on, wherever interrupts came between its steps: if a block is in the list, the task has the
  -- oldest in its hands after two steps at most. So it never waits for a semaphore while a block is
  -- there for it.
  pub Runs-takes :
      {x : Awake dl} (a : ℕ)
      → Runs dl x
      → dl.head x.rx.rx_block_list ≡ some a
      → (n : ℕ) × (n ≤ 2) × ((task_steps dl n x).place ≡ handles a)
  Runs-takes {x} a runs e = soon x.rx x.semaphore x.place a (Runs-IsPending runs).nothing e
