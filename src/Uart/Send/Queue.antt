-- ===== src/Uart/Send/Queue.antt =====
-- The list of elements to be sent as a queue: what each operation of the sending half does to it.
use mathlib.Core.List.{append_assoc, append-nil}
use gd32c103_bootloader.Common.{
  ℕ, ◌≡◌, ◌≢◌, refl, sym, ap, subst, ◌∙◌, arith, Bool, true, false, ◌==◌, ◌||◌, not, ltb,
  Bool-cases, inl, inr, List, [], ◌∷◌, ◌++◌, take, Option, none, some, All,
}
use gd32c103_bootloader.Xlink.Registry.Linked.{IsFresh}
use gd32c103_bootloader.Boot.{Memory}
use gd32c103_bootloader.Syscall.{memcpy}
use gd32c103_bootloader.Uart.Macros.{DlMacros, first}
use gd32c103_bootloader.Uart.{
  Store, with_size, TakenElement, no_element, no_buffer, got, take_element, free_element,
  tx_dma_data_max_cnt, tx_dma_data_max_size,
}
use gd32c103_bootloader.Uart.Own.{
  Owns, Owns-Shuffle, Shuffle-in, Shuffle-out, with_size-Owns, buffer_of, All-map, All-left,
  IsFresh-left,
}
use gd32c103_bootloader.Uart.Own.Supply.{
  Supplies, exhausted, supplied, take_element-Supplies, free_element-Owns,
}
use gd32c103_bootloader.Uart.Send.{
  UartTx, Transfer, Status, success, failure, uart_dma_transmit, enqueue,
  gd32_uart_alloc_dma_element, gd32_uart_dma_send, retire, dma_tx_isr,
}

-- What an element asks to be sent.
abbrev pub frame_of : Store → ℕ → Transfer
frame_of s a = ((s.element a).buffer, (s.element a).size)

abbrev pub frames_of : Store → List ℕ → List Transfer
frames_of s [] = []
frames_of s (a ∷ l) = frame_of s a ∷ frames_of s l

pub frames_of-append :
    (s : Store) (l m : List ℕ) → frames_of s (l ++ m) ≡ frames_of s l ++ frames_of s m
frames_of-append s [] m = refl
frames_of-append s (a ∷ l) m = ap (λ t. frame_of s a ∷ t) (frames_of-append s l m)

pub frames_of-agree :
    (s s' : Store) (l : List ℕ)
    → All (λ a. s'.element a ≡ s.element a) l
    → frames_of s' l ≡ frames_of s l
frames_of-agree s s' [] h = refl
frames_of-agree s s' (a ∷ l) h = rw (h.0, frames_of-agree s s' l h.1) refl

pub frames_of-free_element :
    (s : Store) (a : ℕ) (l : List ℕ) → frames_of (free_element s a) l ≡ frames_of s l
unfolding free_element
frames_of-free_element s a [] = refl
frames_of-free_element s a (b ∷ l) = ap (λ k. frame_of s b ∷ k) (frames_of-free_element s a l)

abbrev pub running : List ℕ → ℕ
running [] = 0
running (a ∷ l) = 1

module _ (dl : DlMacros) where
  -- The list of the driver is `l`. The elements in use are those and the ones `held` by callers. The
  -- frames appended so far are the ones `done`, and those of the list. The frames started are those
  -- done and the first of the list. The DMA channel is on while there is one.
  pub record IsSending (t : UartTx dl) (l held : List ℕ) (appended done : List Transfer)
      : Type 0 where
    pub waiting : dl.items t.tx_dma_list ≡ l
    pub owns : Owns t.store tx_dma_data_max_cnt (l ++ held)
    pub order : done ++ frames_of t.store l ≡ appended
    pub begun : t.started ≡ done ++ take 1 (frames_of t.store l)
    pub state : t.tx_dma_state ≡ running l
    pub on : t.enabled ≡ (running l == 1)

  -- The list after an element is appended.
  appended_lem :
      (t : UartTx dl) (a : ℕ) (l held : List ℕ)
      → dl.items t.tx_dma_list ≡ l
      → Owns t.store tx_dma_data_max_cnt (l ++ (a ∷ held))
      → dl.items (dl.append t.tx_dma_list a) ≡ l ++ (a ∷ [])
  appended_lem t a l held e o =
      let d = (Owns-Shuffle (Shuffle-out a l held) o).distinct in
      dl.items-append t.tx_dma_list a
        (subst (IsFresh a) (sym e) (IsFresh-left t.store a l held d.0))
      ∙ ap (λ (k : List ℕ). k ++ (a ∷ [])) e

  -- Appending an element that a caller holds succeeds; its frame is the last to be sent.
  pub enqueue-IsSending :
      (t : UartTx dl) (a : ℕ) (l held : List ℕ) (appended done : List Transfer)
      → IsSending t l (a ∷ held) appended done
      → (t' : UartTx dl) × (enqueue dl t a ≡ some (success, t'))
        × IsSending t' (l ++ (a ∷ [])) held (appended ++ (frame_of t.store a ∷ [])) done
  unfolding enqueue uart_dma_transmit
  enqueue-IsSending t a [] held appended done q =
      let list = appended_lem t a [] held q.waiting q.owns in
      let top : dl.head (dl.append t.tx_dma_list a) ≡ some a =
        dl.head-first (dl.append t.tx_dma_list a) ∙ ap first list in
      let stopped = q.state in
      (
        uart_dma_transmit dl (t.store.element a).buffer (t.store.element a).size
            (record t { tx_dma_list = dl.append t.tx_dma_list a; tx_dma_state = 1 }),
        rw (enqueue, stopped, top) refl,
        record {
          waiting = list;
          owns = q.owns;
          order =
              ap (λ (k : List Transfer). k ++ (frame_of t.store a ∷ []))
                (sym (append-nil done) ∙ q.order);
          begun =
              ap (λ (k : List Transfer). k ++ (frame_of t.store a ∷ []))
                (q.begun ∙ append-nil done);
          state = refl;
          on = refl;
        },
      )
  enqueue-IsSending t a (x ∷ l) held appended done q =
      let busy = q.state in
      let framed = frames_of-append t.store (x ∷ l) (a ∷ []) in
      (
        record t { tx_dma_list = dl.append t.tx_dma_list a },
        rw (enqueue, busy) refl,
        record {
          waiting = appended_lem t a (x ∷ l) held q.waiting q.owns;
          owns =
              subst (Owns t.store tx_dma_data_max_cnt) (sym (append_assoc (x ∷ l) (a ∷ []) held))
                q.owns;
          order =
              ap (λ k. done ++ k) framed
              ∙ sym (append_assoc done (frames_of t.store (x ∷ l)) (frame_of t.store a ∷ []))
              ∙ ap (λ (k : List Transfer). k ++ (frame_of t.store a ∷ [])) q.order;
          begun = q.begun;
          state = q.state;
          on = q.on;
        },
      )

  -- The state with a new element that the caller holds.
  pub taken_lem :
      (t : UartTx dl) (memory : Memory) (a size : ℕ) (s : Store) (l held : List ℕ)
      (appended done : List Transfer)
      → IsSending t l held appended done
      → Owns s tx_dma_data_max_cnt (a ∷ (l ++ held))
      → IsFresh a (l ++ held)
      → ((b : ℕ) → b ≢ a → s.element b ≡ t.store.element b)
      → IsSending
          (record t { memory = memory; store = with_size s a size })
          l
          (a ∷ held)
          appended
          done
  taken_lem t memory a size s l held appended done q o fresh other =
      let s' : Store = with_size s a size in
      let agree : All (λ b. s'.element b ≡ t.store.element b) l =
        All-map (λ b ne. ground (arith, ne, other b ne)) l (All-left (λ b. b ≢ a) l held fresh) in
      let frames = frames_of-agree t.store s' l agree in
      record {
        waiting = q.waiting;
        owns = Owns-Shuffle (Shuffle-in a l held) (with_size-Owns a size o);
        order = ap (λ k. done ++ k) frames ∙ q.order;
        begun = q.begun ∙ ap (λ (k : List Transfer). done ++ take 1 k) (sym frames);
        state = q.state;
        on = q.on;
      }

  -- What an allocation leaves: the caller holds the element, which has the size asked for.
  abbrev pub AfterAlloc :
      ℕ → List ℕ → List ℕ → List Transfer → List Transfer → Option ℕ × UartTx dl → Type 0
  AfterAlloc size l held appended done (none, t) = IsSending t l held appended done
  AfterAlloc size l held appended done (some a, t) =
      IsSending t l (a ∷ held) appended done × ((t.store.element a).size ≡ size)

  pub gd32_uart_alloc_dma_element-AfterAlloc :
      (t : UartTx dl) (size : ℕ) (l held : List ℕ) (appended done : List Transfer)
      → IsSending t l held appended done
      → AfterAlloc size l held appended done (gd32_uart_alloc_dma_element dl size t)
  unfolding gd32_uart_alloc_dma_element
  gd32_uart_alloc_dma_element-AfterAlloc t size l held appended done q =
      elim (Bool-cases (size == 0 || ltb tx_dma_data_max_size size)) [
        | inl bad ↦ rw (gd32_uart_alloc_dma_element, bad) q
        | inr good ↦
            rw (gd32_uart_alloc_dma_element, good)
              (go (take_element t.store)
                (take_element-Supplies t.store tx_dma_data_max_cnt (l ++ held) q.owns))
      ]
    where
      go :
          (r : TakenElement × Store)
          → Supplies t.store tx_dma_data_max_cnt (l ++ held) r
          → AfterAlloc size l held appended done (elim r.0 [
            | no_element ↦ (none, record t { store = r.1 })
            | no_buffer ↦ (none, record t { store = r.1 })
            | got a ↦ (some a, record t { store = with_size r.1 a size })
          ])
      go _ (exhausted full) = q
      go _ (supplied a s o fresh other) =
          (taken_lem t t.memory a size s l held appended done q o fresh other, ground arith)

  -- What a call to send leaves, by what came of taking an element: a refusal, or a frame more.
  pub data AfterSend (l held : List ℕ) (appended done : List Transfer) (size : ℕ)
      : TakenElement × Store → Option (Status × UartTx dl) → Type 0 where
    refused :
        (r : TakenElement × Store) (t : UartTx dl)
        → IsSending t l held appended done
        → AfterSend l held appended done size r (some (failure, t))
    sent :
        (a : ℕ) (s : Store) (t : UartTx dl)
        → IsSending t (l ++ (a ∷ [])) held (appended ++ ((buffer_of s a, size) ∷ [])) done
        → AfterSend l held appended done size (got a, s) (some (success, t))

  pub gd32_uart_dma_send-AfterSend :
      (t : UartTx dl) (has_handle : Bool) (buf size : ℕ) (l held : List ℕ)
      (appended done : List Transfer)
      → IsSending t l held appended done
      → AfterSend l held appended done size
          (take_element t.store)
          (gd32_uart_dma_send dl has_handle buf size t)
  unfolding gd32_uart_dma_send
  gd32_uart_dma_send-AfterSend t has_handle buf size l held appended done q =
      elim (Bool-cases (not has_handle || (buf == 0 || size == 0))) [
        | inl bad ↦ rw (gd32_uart_dma_send, bad) (refused _ t q)
        | inr good ↦
            rw (gd32_uart_dma_send, good)
              (go (take_element t.store)
                (take_element-Supplies t.store tx_dma_data_max_cnt (l ++ held) q.owns))
      ]
    where
      go :
          (r : TakenElement × Store)
          → Supplies t.store tx_dma_data_max_cnt (l ++ held) r
          → AfterSend l held appended done size r (elim r.0 [
            | no_element ↦ some (failure, record t { store = r.1 })
            | no_buffer ↦ some (failure, record t { store = r.1 })
            | got a ↦
                enqueue dl
                  (record t {
                    memory = memcpy (r.1.element a).buffer buf size t.memory;
                    store = with_size r.1 a size;
                  })
                  a
          ])
      go _ (exhausted full) = refused _ t q
      go _ (supplied a s o fresh other) =
          let memory = memcpy (s.element a).buffer buf size t.memory in
          let held_a = taken_lem t memory a size s l held appended done q o fresh other in
          let (t', e, q') = enqueue-IsSending _ a l held appended done held_a in
          let framed : frame_of (with_size s a size) a ≡ (buffer_of s a, size) = ground arith in
          rw e (
            sent a s t' (
              subst
                (λ (f : Transfer). IsSending t' (l ++ (a ∷ [])) held (appended ++ (f ∷ [])) done)
                framed q'))

  -- The state without the first element.
  abbrev retired : UartTx dl → ℕ → UartTx dl
  retired t a = record t {
    enabled = false;
    tx_dma_list = dl.delete t.tx_dma_list a;
    store = free_element t.store a;
  }

  retire_lem :
      (t : UartTx dl) (a : ℕ) (l : List ℕ)
      → dl.items t.tx_dma_list ≡ a ∷ l
      → retire dl (record t { enabled = false }) ≡ retired t a
  unfolding retire
  retire_lem t a l e =
      let top : dl.head t.tx_dma_list ≡ some a = dl.head-first t.tx_dma_list ∙ ap first e in
      rw (retire, top) refl

  -- The interrupt at the end of a transfer: its frame is done and its element free; the next
  -- starts.
  pub dma_tx_isr-IsSending :
      (t : UartTx dl) (a : ℕ) (l held : List ℕ) (appended done : List Transfer)
      → IsSending t (a ∷ l) held appended done
      → IsSending (dma_tx_isr dl true t) l held appended (done ++ (frame_of t.store a ∷ []))
  unfolding dma_tx_isr uart_dma_transmit free_element
  dma_tx_isr-IsSending t a [] held appended done q =
      let list = dl.items-delete t.tx_dma_list a [] q.waiting in
      let next : dl.head (dl.delete t.tx_dma_list a) ≡ none =
        dl.head-first (dl.delete t.tx_dma_list a) ∙ ap first list in
      let gone = retire_lem t a [] q.waiting in
      rw (dma_tx_isr, gone, next, gone)
        (record {
          waiting = list;
          owns = free_element-Owns t.store tx_dma_data_max_cnt a held q.owns;
          order = append-nil _ ∙ q.order;
          begun = q.begun ∙ sym (append-nil _);
          state = refl;
          on = refl;
        })
  dma_tx_isr-IsSending t a (b ∷ l) held appended done q =
      let list = dl.items-delete t.tx_dma_list a (b ∷ l) q.waiting in
      let next : dl.head (dl.delete t.tx_dma_list a) ≡ some b =
        dl.head-first (dl.delete t.tx_dma_list a) ∙ ap first list in
      let gone = retire_lem t a (b ∷ l) q.waiting in
      rw (dma_tx_isr, gone, next, gone)
        (record {
          waiting = list;
          owns = free_element-Owns t.store tx_dma_data_max_cnt a ((b ∷ l) ++ held) q.owns;
          order =
              ap (λ k. done ++ (frame_of t.store a ∷ []) ++ k)
                (frames_of-free_element t.store a (b ∷ l))
              ∙ append_assoc done (frame_of t.store a ∷ []) _
              ∙ q.order;
          begun = ap (λ (k : List Transfer). k ++ (frame_of t.store b ∷ [])) q.begun;
          state = q.state;
          on = refl;
        })
