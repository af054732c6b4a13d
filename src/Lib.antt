-- ===== src/Lib.antt =====
-- The boot loader and the upgrade of the GD32C103 firmware with two application slots.
--
-- A host (upgrade.cpp) sends an image over a serial line in frames (xlink/xlink.h); the device takes the frames
-- apart byte by byte, checks them, and calls the handlers that are registered for a message. The
-- handlers of the upgrade component (src/upgrade.c, with the messages of
-- xlink/xlink_generator/xlink_upgrade.h) erase and program the flash through
-- src/onchip_flash_port.c. At the next start src/boot_loader_main.c checks the slots of
-- inc/partition.h and starts one. The line is a UART behind src/drv_simple_uart.c, which queues the
-- frames to be sent and the blocks received in elements from the pools of src/freertos_mpool.c. The
-- first image of the flash is made by app_padding.cpp.
--
-- The files, by the code they model:
--   Crc         `crc_table`, `xlink_crc16`, `xlink_crc16_with_init` and `_memcpy_and_crc16` of
--               xlink/xlink.h, `crc32tab` and `crc32_calculate` of inc/partition.h. Crc/Register and
--               Crc/Bitwise define the check bit by bit, Crc/Detect is about wrong bytes.
--   Xlink/Message, Xlink/Receive
--               the frame of `xlink_send` (`encode_frame`) and the state machine of
--               `xlink_process_rx` (`take_byte`, one function per state; `receive` for a run of
--               bytes). A write past the buffer is a result of its own.
--   Xlink/Registry
--               `xlink_register_msg_handler`, `xlink_unregister_msg_handler` and the dispatch. List
--               elements carry addresses and tail pointers are cells, so aliasing is seen.
--               Registry/Described says apart from the searches of the code which handlers a message
--               calls, and which handler is the same as another.
--   Xlink/Context
--               `xlink_context_create`, `xlink_context_delete`, the whole of `xlink_process_rx` with
--               the calls it makes (`process_rx`), and `xlink_send`.
--   Pool        src/freertos_mpool.c. Pool/View is what a client sees of a pool.
--   Uart        src/drv_simple_uart.c with UART1: Uart/Send and Uart/Receive are its two halves, each a
--               record of the fields it uses; their Reach are the states under any order of the
--               operations. Uart/Macros is the record `DlMacros` for DL_APPEND and DL_DELETE of
--               inc/utlist.h; Uart/Own says which elements are in use; Uart/Device is the set-up.
--   Syscall     `memset` and `memcpy` of src/syscall.c.
--   Flash       src/onchip_flash_port.c over the record `Fmc` of Flash/Controller, which stands for
--               the flash controller of the firmware library: its calls and what its manual says.
--   Boot        the partitions, `check_app_valid`, `jump_to_app` and `main`.
--   Upgrade     the callbacks of src/upgrade.c (`..._cb`) on a record of its static variables and
--               the chip, and the payloads of the messages; Upgrade/Init is `upgrade_init`.
--               Upgrade/Session cuts an image into chunks as `perform_upgrade` of upgrade.cpp
--               does.
--   Host        `perform_upgrade` and `main` of upgrade.cpp over the record `Line`; Host/Device puts
--               the callbacks at the end of the line, Host/Whole goes on to the next start. Host/Wire is
--               the line with the frames of both directions on it, and Host/Simulation compares lines.
--               Host/Program is the rest of `main`, from its options on, and
--               `get_mcu_firmware_version`.
--   Padding     app_padding.cpp; Padding/Program is its options and the writing of the image.
--   Tasks       the loop of `xlinkTask` of src/main.c between two waits for its semaphore; Tasks/Device
--               runs the callbacks that the calls of `process_rx` lead to. Tasks/Wake is the semaphore,
--               with the interrupt between the steps of the task.
--   Tests       a simulated controller and the theorems at concrete inputs.
--   Common, Bits, Table
--               shared names, lists, exclusive or, and checks of a table by computation.
--
-- Numbers are natural; casts to 8, 16 and 32 bits are written out. Loops are structural recursion on
-- their count or on the bytes they read; `chunks`, `send_chunks` and the loops of Syscall have fuel,
-- for which the number of bytes is enough, since every round takes a byte at least. The loop of
-- `dma_recv_isr` has the number of its rounds as fuel, and two are shown to be enough;
-- that of the task has its rounds too, and one more than the blocks in the list is enough.
--
-- Not modelled: the creation of the tasks of src/main.c, the ports (locks and
-- memory are arguments), the registers of the UART and of its DMA channels but for what they are
-- given to do, the settings of the serial port and the printing of upgrade.cpp and app_padding.cpp,
-- bus faults, interrupts other than those of the driver and their flag, interrupts within the
-- allocation of an element from the pools, and timing. For these two
-- programs the results of opening, reading and getopt_long are arguments.
pub mod Common
pub mod Bits
pub mod Table
pub mod Crc
pub mod Xlink
pub mod Flash
pub mod Boot
pub mod Uart
pub mod Upgrade
pub mod Tasks
pub mod Tests
pub mod Host
pub mod Padding
pub mod Pool
pub mod Syscall
