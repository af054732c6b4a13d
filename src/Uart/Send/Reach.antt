-- ===== src/Uart/Send/Reach.antt =====
-- The sending half from its start on, under any order of its operations.
use gd32c103_bootloader.Common.{
  ℕ, ◌≡◌, refl, ap, subst, ◌∙◌, true, false, List, [], ◌∷◌, ◌++◌, none, some,
}
use gd32c103_bootloader.Uart.Macros.{DlMacros}
use gd32c103_bootloader.Uart.{Store, TakenElement, got, take_element, tx_dma_data_max_cnt}
use gd32c103_bootloader.Uart.Own.{Owns, Owns-Shuffle, Shuffle, Shuffle-append, buffer_of}
use gd32c103_bootloader.Uart.Send.{
  UartTx, Transfer, success, failure, gd32_uart_append_dma_send_list, gd32_uart_alloc_dma_element,
  gd32_uart_dma_send, dma_tx_isr,
}
use gd32c103_bootloader.Uart.Send.Queue.{
  IsSending, frame_of, enqueue-IsSending, AfterAlloc, gd32_uart_alloc_dma_element-AfterAlloc,
  AfterSend, refused, sent, gd32_uart_dma_send-AfterSend, dma_tx_isr-IsSending,
}

module _ (dl : DlMacros) where
  -- Before the first operation: an empty list, nothing sent, and pools of which nothing is taken.
  pub record IsStart (t : UartTx dl) : Type 0 where
    pub list : t.tx_dma_list ≡ dl.empty
    pub stopped : t.tx_dma_state ≡ 0
    pub off : t.enabled ≡ false
    pub silent : t.started ≡ []
    pub owns : Owns t.store tx_dma_data_max_cnt []

  -- The states after some operations, with the elements that callers hold and the frames appended
  -- so far. A caller appends only what it was given, and the controller completes only what was
  -- started.
  pub data Reach : UartTx dl → List ℕ → List Transfer → Type 0 where
    start : (t : UartTx dl) → IsStart t → Reach t [] []
    alloc :
        {t : UartTx dl} {held : List ℕ} {appended : List Transfer} (size a : ℕ) (t' : UartTx dl)
        → Reach t held appended
        → gd32_uart_alloc_dma_element dl size t ≡ (some a, t')
        → Reach t' (a ∷ held) appended
    alloc_fails :
        {t : UartTx dl} {held : List ℕ} {appended : List Transfer} (size : ℕ) (t' : UartTx dl)
        → Reach t held appended
        → gd32_uart_alloc_dma_element dl size t ≡ (none, t')
        → Reach t' held appended
    append :
        {t : UartTx dl} {a : ℕ} {held : List ℕ} {appended : List Transfer} (t' : UartTx dl)
        → Reach t (a ∷ held) appended
        → gd32_uart_append_dma_send_list dl true (some a) t ≡ some (success, t')
        → Reach t' held (appended ++ (frame_of t.store a ∷ []))
    send :
        {t : UartTx dl} {held : List ℕ} {appended : List Transfer} (buf size a : ℕ) (s : Store)
        (t' : UartTx dl)
        → Reach t held appended
        → take_element t.store ≡ (got a, s)
        → gd32_uart_dma_send dl true buf size t ≡ some (success, t')
        → Reach t' held (appended ++ ((buffer_of s a, size) ∷ []))
    send_fails :
        {t : UartTx dl} {held : List ℕ} {appended : List Transfer} (buf size : ℕ) (t' : UartTx dl)
        → Reach t held appended
        → gd32_uart_dma_send dl true buf size t ≡ some (failure, t')
        → Reach t' held appended
    complete :
        {t : UartTx dl} {held : List ℕ} {appended : List Transfer}
        → Reach t held appended
        → t.enabled ≡ true
        → Reach (dma_tx_isr dl true t) held appended
    pass :
        {t : UartTx dl} {held held' : List ℕ} {appended : List Transfer}
        → Reach t held appended
        → Shuffle held held'
        → Reach t held' appended

  -- In every state of the relation the list is a queue.
  abbrev Queued : UartTx dl → List ℕ → List Transfer → Type 0
  Queued t held appended =
      (l : List ℕ) × (done : List Transfer) × IsSending dl t l held appended done

  sent_lem :
      {l held : List ℕ} {appended done : List Transfer} {size a : ℕ} {s : Store} {t : UartTx dl}
      → AfterSend dl l held appended done size (got a, s) (some (success, t))
      → IsSending dl t (l ++ (a ∷ [])) held (appended ++ ((buffer_of s a, size) ∷ [])) done
  sent_lem (sent a s t q) = q

  refused_lem :
      {l held : List ℕ} {appended done : List Transfer} {size : ℕ} {r : TakenElement × Store}
      {t : UartTx dl}
      → AfterSend dl l held appended done size r (some (failure, t))
      → IsSending dl t l held appended done
  refused_lem (refused r t q) = q

  complete-Queued :
      (t : UartTx dl) (l held : List ℕ) (appended done : List Transfer)
      → t.enabled ≡ true
      → IsSending dl t l held appended done
      → Queued (dma_tx_isr dl true t) held appended
  complete-Queued t [] held appended done on q = absurd (let off = q.on in cc)
  complete-Queued t (a ∷ l) held appended done on q =
      (l, done ++ (frame_of t.store a ∷ []), dma_tx_isr-IsSending dl t a l held appended done q)

  start-IsSending : (t : UartTx dl) → IsStart t → IsSending dl t [] [] [] []
  start-IsSending t s = record {
    waiting = ap dl.items s.list ∙ dl.items-empty;
    owns = s.owns;
    order = refl;
    begun = s.silent;
    state = s.stopped;
    on = s.off;
  }

  pub Reach-Queued :
      {t : UartTx dl} {held : List ℕ} {appended : List Transfer}
      → Reach t held appended
      → Queued t held appended
  unfolding gd32_uart_append_dma_send_list
  Reach-Queued (start t s) = ([], [], start-IsSending t s)
  Reach-Queued (alloc {t} {held} {appended} size a t' r e) =
      let (l, done, q) = Reach-Queued r in
      (
        l,
        done,
        (subst (AfterAlloc dl size l held appended done) e
            (gd32_uart_alloc_dma_element-AfterAlloc dl t size l held appended done q)).0,
      )
  Reach-Queued (alloc_fails {t} {held} {appended} size t' r e) =
      let (l, done, q) = Reach-Queued r in
      (
        l,
        done,
        subst (AfterAlloc dl size l held appended done) e
            (gd32_uart_alloc_dma_element-AfterAlloc dl t size l held appended done q),
      )
  Reach-Queued (append {t} {a} {held} {appended} t' r e) =
      let (l, done, q) = Reach-Queued r in
      let (t'', f, q') = enqueue-IsSending dl t a l held appended done q in
      let same : t'' ≡ t' = cc in
      (
        l ++ (a ∷ []),
        done,
        subst
            (λ (x : UartTx dl).
              IsSending dl x (l ++ (a ∷ [])) held (appended ++ (frame_of t.store a ∷ [])) done)
            same q',
      )
  Reach-Queued (send {t} {held} {appended} buf size a s t' r got_a e) =
      let (l, done, q) = Reach-Queued r in
      let after = gd32_uart_dma_send-AfterSend dl t true buf size l held appended done q in
      (
        l ++ (a ∷ []),
        done,
        sent_lem (
            subst (λ o. AfterSend dl l held appended done size (got a, s) o) e
              (subst
                (λ x.
                  AfterSend dl l held appended done size x (gd32_uart_dma_send dl true buf size t))
                got_a after)),
      )
  Reach-Queued (send_fails {t} {held} {appended} buf size t' r e) =
      let (l, done, q) = Reach-Queued r in
      let after = gd32_uart_dma_send-AfterSend dl t true buf size l held appended done q in
      (
        l,
        done,
        refused_lem
            (subst (λ o. AfterSend dl l held appended done size (take_element t.store) o) e after),
      )
  Reach-Queued (complete {t} {held} {appended} r on) =
      let (l, done, q) = Reach-Queued r in complete-Queued t l held appended done on q
  Reach-Queued (pass {t} {held} {held'} {appended} r s) =
      let (l, done, q) = Reach-Queued r in
      (
        l,
        done,
        record {
          waiting = q.waiting;
          owns = Owns-Shuffle (Shuffle-append l s) q.owns;
          order = q.order;
          begun = q.begun;
          state = q.state;
          on = q.on;
        },
      )
