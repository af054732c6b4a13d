-- ===== src/Uart/Send/Order.antt =====
-- What the sending half of src/drv_simple_uart.c promises: frames go out in the order in which they
-- were appended, none is lost, and every element comes back.
use gd32c103_bootloader.Common.{
  ℕ, zero, suc, ◌+◌, ◌≡◌, ◌≢◌, ◌<◌, refl, sym, ap, subst, ◌∙◌, arith, true, false, not, ◌||◌, ◌==◌,
  List, [], ◌∷◌, ◌++◌, length, length-append, take, drop, take-append-drop, Option, some,
}
use mathlib.Core.List.{append_assoc, append-nil}
use gd32c103_bootloader.Uart.Macros.{DlMacros}
use gd32c103_bootloader.Uart.{
  Store, TakenElement, no_element, no_buffer, got, take_element, with_size, tx_dma_data_max_cnt,
}
use gd32c103_bootloader.Syscall.{memcpy}
use gd32c103_bootloader.Pool.View.{used}
use gd32c103_bootloader.Uart.Own.Supply.{Supplies, exhausted, supplied, take_element-Supplies}
use gd32c103_bootloader.Uart.Send.{
  UartTx, Transfer, Status, success, failure, enqueue, gd32_uart_append_dma_send_list,
  gd32_uart_dma_send, dma_tx_isr,
}
use gd32c103_bootloader.Uart.Send.Queue.{
  IsSending, frame_of, frames_of, running, enqueue-IsSending, taken_lem, dma_tx_isr-IsSending,
}
use gd32c103_bootloader.Uart.Send.Reach.{Reach, Reach-Queued}

module _ (dl : DlMacros) where
  -- In every state that the operations reach from the start, in any order: the frames started, and
  -- then those of the list without its first, are the frames appended, in their order; the driver's
  -- state is 1 and the DMA channel on exactly if the list is not empty, and otherwise 0 and off; and
  -- the elements and buffers taken from the pools are as many as the elements in the list and in
  -- the hands of callers.
  pub Reach-in_order :
      {t : UartTx dl} {held : List ℕ} {appended : List Transfer}
      → Reach dl t held appended
      → (t.started ++ drop 1 (frames_of t.store (dl.items t.tx_dma_list)) ≡ appended)
        × (t.tx_dma_state ≡ running (dl.items t.tx_dma_list))
        × (t.enabled ≡ (t.tx_dma_state == 1))
        × (used t.store.element_pool ≡ length (dl.items t.tx_dma_list) + length held)
        × (used t.store.data_pool ≡ length (dl.items t.tx_dma_list) + length held)
  Reach-in_order {t} {held} r =
      let (l, done, q) = Reach-Queued dl r in
      let frames = frames_of t.store l in
      let size = length-append l held in
      let state = q.state in
      rw (q.waiting, state)
        (
          ap (λ (k : List Transfer). k ++ drop 1 frames) q.begun
              ∙ append_assoc done (take 1 frames) (drop 1 frames)
              ∙ ap (λ (k : List Transfer). done ++ k) (take-append-drop 1 frames)
              ∙ q.order,
          refl,
          q.on,
          q.owns.used_elements ∙ size,
          q.owns.used_data ∙ size,
        )

  -- The interrupts of as many transfers that complete.
  abbrev pub complete_all : ℕ → UartTx dl → UartTx dl
  complete_all zero t = t
  complete_all (suc n) t = complete_all n (dma_tx_isr dl true t)

  complete_all_lem :
      (t : UartTx dl) (l held : List ℕ) (appended done : List Transfer)
      → IsSending dl t l held appended done
      → IsSending dl (complete_all (length l) t) [] held appended appended
  complete_all_lem t [] held appended done q =
      let all : done ≡ appended = sym (append-nil done) ∙ q.order in
      subst (λ d. IsSending dl t [] held appended d) all q
  complete_all_lem t (a ∷ l) held appended done q =
      complete_all_lem (dma_tx_isr dl true t) l held appended (done ++ (frame_of t.store a ∷ []))
        (dma_tx_isr-IsSending dl t a l held appended done q)

  -- From every state that the operations reach, when as many transfers complete as elements are in
  -- the list, and nothing else happens, every frame appended has been started, in order, the driver
  -- is idle, and only the elements in the hands of callers are still taken.
  pub Reach-complete_all :
      {t : UartTx dl} {held : List ℕ} {appended : List Transfer}
      → Reach dl t held appended
      → ((complete_all (length (dl.items t.tx_dma_list)) t).started ≡ appended)
        × ((complete_all (length (dl.items t.tx_dma_list)) t).tx_dma_state ≡ 0)
        × ((complete_all (length (dl.items t.tx_dma_list)) t).enabled ≡ false)
        × (used (complete_all (length (dl.items t.tx_dma_list)) t).store.element_pool ≡ length held)
  Reach-complete_all {t} {held} {appended} r =
      let (l, done, q) = Reach-Queued dl r in
      let z = complete_all_lem t l held appended done q in
      rw q.waiting (z.begun ∙ append-nil appended, z.state, z.on, z.owns.used_elements)

  -- From every state that the operations reach: an element in the hands of a caller is appended
  -- with success, without a read through NULL.
  pub Reach-appends :
      {t : UartTx dl} {a : ℕ} {held : List ℕ} {appended : List Transfer}
      → Reach dl t (a ∷ held) appended
      → (t' : UartTx dl) × (gd32_uart_append_dma_send_list dl true (some a) t ≡ some (success, t'))
  unfolding gd32_uart_append_dma_send_list
  Reach-appends {t} {a} {held} {appended} r =
      let (l, done, q) = Reach-Queued dl r in
      let (t', e, q') = enqueue-IsSending dl t a l held appended done q in (t', e)

  -- From every state that the operations reach, with fewer than ten elements taken, a call to send
  -- with a handle, a buffer that is not NULL and a size that is not 0 succeeds.
  pub Reach-sends :
      {t : UartTx dl} {held : List ℕ} {appended : List Transfer} (buf size : ℕ)
      → Reach dl t held appended
      → buf ≢ 0
      → size ≢ 0
      → used t.store.element_pool < tx_dma_data_max_cnt
      → (t' : UartTx dl) × (gd32_uart_dma_send dl true buf size t ≡ some (success, t'))
  unfolding gd32_uart_dma_send
  Reach-sends {t} {held} {appended} buf size r nb nz lt =
      let (l, done, q) = Reach-Queued dl r in
      let good : (not true || (buf == 0 || size == 0)) ≡ false = ground (arith, nb, nz) in
      rw (gd32_uart_dma_send, good)
        (go l done q (take_element t.store)
          (take_element-Supplies t.store tx_dma_data_max_cnt (l ++ held) q.owns))
    where
      sending : TakenElement × Store → Option (Status × UartTx dl)
      sending r = elim r.0 [
        | no_element ↦ some (failure, record t { store = r.1 })
        | no_buffer ↦ some (failure, record t { store = r.1 })
        | got a ↦
            enqueue dl
              (record t {
                memory = memcpy (r.1.element a).buffer buf size t.memory;
                store = with_size r.1 a size;
              })
              a
      ]

      go :
          (l : List ℕ) (done : List Transfer)
          → IsSending dl t l held appended done
          → (r : TakenElement × Store) → Supplies t.store tx_dma_data_max_cnt (l ++ held) r
          → (t' : UartTx dl) × (sending r ≡ some (success, t'))
      go l done q _ (exhausted full) =
          let u = q.owns.used_elements in absurd (omega (arith, lt, u, full))
      go l done q _ (supplied b s o fresh other) =
          let memory = memcpy (s.element b).buffer buf size t.memory in
          let held_b = taken_lem dl t memory b size s l held appended done q o fresh other in
          let (t', e, q') = enqueue-IsSending dl _ b l held appended done held_b in (t', e)
