-- ===== src/Uart/Device/Start.antt =====
-- That `uart_init` of src/drv_simple_uart.c gives both halves of the driver what they start from, and
-- that `gd32_uart_get_handle` finds the UART by its name only.
use gd32c103_bootloader.Common.{
  ℕ, ◌+◌, ◌*◌, ◌≡◌, ◌≢◌, ◌≤◌, ◌<◌, ◌↔◌, refl, arith, true, false, ◌==◌, not, ◌&&◌, ==_iff,
  Bool-cases, inl, inr, List, [], ◌∷◌, replicate, some, All,
}
use gd32c103_bootloader.Boot.{Memory}
use gd32c103_bootloader.Pool.{Pool, os_pool_init}
use gd32c103_bootloader.Pool.Alloc.{IsValid}
use gd32c103_bootloader.Pool.View.{used}
use gd32c103_bootloader.Uart.Macros.{DlMacros}
use gd32c103_bootloader.Uart.{Store, DmaElement, tx_dma_data_max_size, tx_dma_data_max_cnt}
use gd32c103_bootloader.Uart.Own.{Owns}
use gd32c103_bootloader.Uart.Send.{UartTx}
use gd32c103_bootloader.Uart.Send.Reach as Sending
use gd32c103_bootloader.Uart.Receive.{UartRx, gd32_uart_buf_size, start_receiving}
use gd32c103_bootloader.Uart.Receive.Reach as Receiving
use gd32c103_bootloader.Uart.Device.{
  simple_strcmp, find_handle, uart1_name, gd32_uart_get_handle, Heap, new_pool, new_store, new_tx,
  new_rx, uart_init, sizeof_dma_element,
}

-- The heap gives all that a pool asks for, the items end below 4 GB, and what the memory held where
-- `currentIndex` is, which the code does not see to, is an index of the pool.
pub record IsGiven (h : Heap) (item_sz : ℕ) : Type 0 where
  pub id : ℕ
  pub address : ℕ
  pub marker_address : ℕ
  pub has_id : h.pool_id ≡ some id
  pub has_memory : h.memory ≡ some address
  pub has_markers : h.markers ≡ some marker_address
  pub fits : address + 10 * item_sz ≤ 4294967296
  pub index : h.garbage < 10

made_pool : Heap → ℕ → ℕ → Pool
made_pool h address item_sz = record {
  pool = address;
  markers = replicate 10 0;
  pool_sz = 10;
  item_sz = item_sz;
  current_index = h.garbage;
}

new_pool_lem :
    (h : Heap) (n : ℕ) (g : IsGiven h n) → new_pool h 10 n ≡ some (made_pool h g.address n)
unfolding os_pool_init made_pool
new_pool_lem h n g =
    let a = g.has_id in let b = g.has_memory in let c = g.has_markers in rw (a, b, c) refl

made_pool-IsValid : (h : Heap) (n : ℕ) (g : IsGiven h n) → 0 < n → IsValid (made_pool h g.address n)
unfolding made_pool
made_pool-IsValid h n g pos = record {
  marked = refl;
  in_range = g.index;
  small = omega arith;
  sized = pos;
  fits = g.fits;
}

new_store-Owns :
    (e d : Heap) (n : ℕ) (element : ℕ → DmaElement)
    → IsGiven e sizeof_dma_element
    → IsGiven d n
    → 0 < n
    → (s : Store) × (new_store e d n element ≡ some s) × Owns s tx_dma_data_max_cnt []
unfolding new_store made_pool used
new_store-Owns e d n element ge gd pos =
    let pe = new_pool_lem e sizeof_dma_element ge in
    let pd = new_pool_lem d n gd in
    (
      record {
        element_pool = made_pool e ge.address sizeof_dma_element;
        data_pool = made_pool d gd.address n;
        element = element;
      },
      rw (new_store, pe, pd) refl,
      record {
        valid_elements = made_pool-IsValid e sizeof_dma_element ge (omega arith);
        valid_data = made_pool-IsValid d n gd pos;
        element_count = refl;
        data_count = refl;
        are_taken = tt;
        distinct = tt;
        used_elements = refl;
        used_data = refl;
      },
    )

-- Each of the four pools is given all that it asks for, its items end below 4 GB, and the memory of its
-- `currentIndex`, which `osPoolInit` does not set, happens to hold a number below 10. Then `uart_init`
-- brings both halves of the driver to a state from which their guarantees hold: nothing was appended,
-- nothing came.
pub uart_init-Reach :
    (dl : DlMacros) (tx_elements tx_data rx_blocks rx_data : Heap) (memory : Memory)
    (element : ℕ → DmaElement)
    → IsGiven tx_elements sizeof_dma_element
    → IsGiven tx_data tx_dma_data_max_size
    → IsGiven rx_blocks sizeof_dma_element
    → IsGiven rx_data gd32_uart_buf_size
    → (t : UartTx dl) × (r : UartRx dl) × (uart_init dl tx_elements tx_data rx_blocks rx_data memory
          element
        ≡ some (t, r))
      × Sending.Reach dl t [] []
      × Receiving.Reach dl r [] []
unfolding uart_init
uart_init-Reach dl tx_elements tx_data rx_blocks rx_data memory element te td rb rd =
    let (s, e, o) =
      new_store-Owns tx_elements tx_data tx_dma_data_max_size element te td (omega arith) in
    let (s', e', o') =
      new_store-Owns rx_blocks rx_data gd32_uart_buf_size element rb rd (omega arith) in
    (
      new_tx dl memory s,
      start_receiving dl (new_rx dl s'),
      rw (uart_init, e, e') refl,
      Sending.Reach.start (new_tx dl memory s)
          (record { list = refl; stopped = refl; off = refl; silent = refl; owns = o }),
      Receiving.Reach.start (new_rx dl s') (record { list = refl; owns = o' }),
    )

-- The bytes of a string: none is 0.
abbrev pub IsString : List ℕ → Type 0
IsString = All (λ b. (b ≢ 0) × (b < 256))

simple_strcmp_lem : (s t : List ℕ) → IsString s → IsString t → (simple_strcmp s t ≡ 0) ↔ (s ≡ t)
unfolding simple_strcmp
simple_strcmp_lem [] [] hs ht = ((λ e. refl), (λ e. refl))
simple_strcmp_lem [] (y ∷ t) hs ht =
    ((λ e. absurd (let n = ht.0 in omega (arith, e, n.0, n.1))), (λ e. absurd cc))
simple_strcmp_lem (x ∷ s) [] hs ht = ((λ e. absurd (hs.0.0 e)), (λ e. absurd cc))
simple_strcmp_lem (x ∷ s) (y ∷ t) hs ht =
    let ih = simple_strcmp_lem s t hs.1 ht.1 in
    let lx = hs.0.1 in
    let ly = ht.0.1 in
    let nx = hs.0.0 in
    elim (Bool-cases (x == y)) [
      | inl same ↦
          (let xy = (==_iff x y).0 same in
            let go_on : (not (x == 0) && x == y) ≡ true = ground (arith, same, nx) in
            rw go_on ((λ e. rw (xy, ih.0 e) refl), (λ e. ih.1 cc)))
      | inr other ↦
          (let stop : (not (x == 0) && x == y) ≡ false = ground (arith, other, nx) in
            let ne : x ≢ y = ground (arith, other) in
            rw stop ((λ e. absurd (omega (arith, e, lx, ly, ne))), (λ e. absurd (ne cc))))
    ]

uart1_name-IsString : IsString uart1_name
uart1_name-IsString = (
  (omega arith, omega arith),
  (
    (omega arith, omega arith),
    ((omega arith, omega arith), ((omega arith, omega arith), ((omega arith, omega arith), tt))),
  ),
)

-- The UART is found by its own name and by no other.
pub gd32_uart_get_handle_lem :
    (name : List ℕ) → IsString name → gd32_uart_get_handle name ≡ some 0 ↔ uart1_name ≡ name
unfolding gd32_uart_get_handle find_handle
gd32_uart_get_handle_lem name h =
    let same = simple_strcmp_lem uart1_name name uart1_name-IsString h in
    elim (Bool-cases (simple_strcmp uart1_name name == 0)) [
      | inl e ↦ (let z = same.0 ((==_iff _ _).0 e) in rw e ((λ f. z), (λ f. refl)))
      | inr e ↦
          (let ne : simple_strcmp uart1_name name ≢ 0 = ground (arith, e) in
            rw e ((λ f. absurd cc), (λ f. absurd (ne (same.1 f)))))
    ]
