-- ===== src/Lib.antt =====
-- A model of the kernel of STM32_OS, an operating system for STM32 microcontrollers in C, with
-- the theorems that make its parts correct.
--
-- The parts and their files:
-- - Common: the libraries' names, tests on numbers, lists measured by native numbers. Port: the
--   states and constants of port/os_port.h, 32-bit arithmetic, and the interface `Kmem` of the
--   kernel memory allocator.
-- - Ring: the circular doubly linked lists that every part threads through its structures.
-- - Timer: others/software_timer.c. `os_timer_create`, `os_timer_delete` and `TIM3_IRQHandler`
--   are the definitions of these names (`tim3_irq_handler`). A timer's ticks count from the timer
--   before it; Timer/Deltas says what the list stands for, Timer/Service when the timers fire.
-- - Thread: thread_manage/operate_thread_list.c and thread_manage/task_switch_context.c, by
--   functions of the same names (`sys_tick_handler` is `SysTick_Handler`). Thread/Manage:
--   thread_manage/os_thread_manage.c and thread_manage/thread_manage.c. A thread that sleeps makes
--   a timer, whose timeout function is `os_thread_resume`.
-- - Queue: others/queue.c, by functions of the same names. Queue/Fifo has the representation
--   invariant and the abstract view, a list of messages; Queue/Access and Queue/Lifetime say what
--   the operations do to it.
-- - Area: memory_manage/memory_tool.c, with Area/Table for the table of allocations and
--   Area/Manage for memory_manage/memory.c, by functions of the same names. Area/Fragments says
--   what the list of fragments stands for; Area/Insert, Area/Get, Area/Top, Area/Table/Free and
--   Area/Manage/Add are about the operations.
-- - Block: memory_manage/memory_block.c, the structures MEMORY_BLOCK and the creation of blocks;
--   Block/Buddy its lists of free blocks by size, Block/Sort memory_manage/memory_manage.c, all by
--   functions of the same names. Block/Buddy/Round is about NORMALIZE_SIZE, Block/Buddy/Order and
--   Insert about the order of a list, Block/Buddy/Get about taking a block out of it.
-- - Cache: memory_manage/memory_kmem.c, by functions of the same names. Cache/Layout and Cache/Holds
--   say how the caches lie in a block, Cache/Get and Cache/Free are about `kmem_get_from_block`
--   and `kmem_free`.
-- - System: system_call/system_call.c, and the inner loop of `init_func` (`serve`), the
--   initialisation and `thread_return_handle` of thread_manage/. A system call is a message of 32
--   bytes (System/Words) that goes through the queue `os_queue` to the kernel thread, which calls the
--   function of `system_call_array` (System/Serve, System/Call).
-- - Device: Driver/F1/driver.c, devices on a peripheral, by functions of the same names.
-- - Uart: Driver/F1/driver_UART.c, with Uart/Print for `printint` and `printf_`. `uart_read` and
--   `uart_write` are the cases READ and WRITE of `UART_driver`.
-- - Peripheral: Driver/driver.h and Driver/driver.c, transfers through the driver of a peripheral.
-- - Flash: Driver/driver_FLASH.c (`flash_driver` is FLASH_driver). Flash/Copy, Flash/Page and
--   Flash/Write follow the loops over the bytes, the halfwords and the pages; Flash/Requests and
--   Flash/Transfers are about whole transfers, Flash/Failure and Flash/Lost about those that fail.
-- - FlashF4: Driver/F4/driver_FLASH.c, by functions of the same names. FlashF4/Programmed is about
--   writing, FlashF4/Sector about erasing.
-- - Ticks: the hardware timers of Driver/F4/driver_SYS_TICK.c and Driver/F4/driver_TIM_BASE.c
--   (`start_timing` is timer_timing); Ticks/Period is about the periods that are read back.
-- - Dma: the three drivers of the DMA, Dma/Stream for Driver/F4/driver_DMA.c, Dma/Channel for
--   Driver/F1/driver_DMA.c and Dma/Control for Driver/driver_DMA.c, by functions of the same names.
-- - Bus: the macro DELAY, with Bus/I2c for Driver/driver_I2C.c (`i2c_driver` is I2C_driver) and
--   Bus/Spi for Driver/F1/driver_SPI.c (`spi_driver`, `spi_init`). What a driver does to the bus is a
--   list of events.
-- - UartF4: Driver/F4/driver_UART.c, the serial line that prints by a stream of the DMA.
-- - Mpu: Driver/F4/driver_MPU.c, the memory protection unit (`mpu_add` is MPU_add, and so on);
--   Mpu/Rasr says what a register grants, Mpu/Overlap which regions clash, and Mpu/Add and
--   Mpu/Exchange are about the operations.
--
-- How the state is modelled: a structure is its address, and each field is a function of the
-- address; NULL is 0. `unsigned int`, `unsigned long` and pointers are natural numbers, and
-- the arithmetic of the source on them is reduced modulo 2 ^ 32. `THREAD_YILED`, which asks the
-- processor for a switch, is a Boolean in the result. Calls of timeout functions are listed with
-- their arguments, in order.
--
-- An unsigned char that takes a register takes its low byte. Arrays are functions of the index,
-- without end: where the source does not test an index, which is `buddy_system_list`, `ma_info` and
-- the buffers of `printf_`, the theorems on them have the bound as a condition, or their comment
-- says that they are about the text alone. A read or a write behind an array, and a call of NULL,
-- whose effects nothing describes, are missing results (`dma_stream_func_set` and `serve`).
--
-- Bounds: the loops over the timer list, over a thread's memory and over the lists of blocks and
-- caches have fuel `sram_size`, the size of the RAM in bytes, which is more than the number of
-- structures in it; that the fuel suffices for every list that is shorter is part of the
-- theorems on the timers and on `memory_block_insert`. The loops over the fragments of a memory
-- area have fuel 2 ^ 16, which is more than there are offsets of 16 bits but 0. The loop of
-- NORMALIZE_SIZE has fuel 32, one step for each bit, and the digits of `printint` have fuel 32,
-- the number of digits of a word in base 2. The loop of `printf_` has the length of the format
-- and one step more. `serve` has its fuel as an argument.
--
-- The calls of `kmem_malloc` and `kmem_free`, and the fields of a KERNEL_MEMORY_CACHE, are the
-- interface `Kmem`, which is a parameter of the parts that use it.
--
-- The loop over the pages of the flash has fuel 33, one more than the area has pages, and the loop
-- of FLASH_WAIT has its own bound 0x1000.
--
-- What is not under the repository is a parameter: what the status and data registers of the
-- serial lines and buses read, the drivers of the peripherals of a device, the values of
-- `os_state` that a system call polls, and what the flash interfaces do (`Flash.Interface`, and
-- `unlock` and `store` of FlashF4), of which `Flash.Page.Documented` and
-- `FlashF4.Programmed.StoresWords` say what their manuals say. The registers of the DMA and of the
-- timers read as they were written, but for the flags, which are arguments of the interrupts; the
-- addresses of channels and streams are parameters too, and so is what a local variable holds that
-- the source reads before it is set.
--
-- Not modelled: the SPI and SDIO of the F4; the functions that only set registers, as those of the
-- clocks and most of the initialisation; the assembly that saves and loads the registers of a
-- thread; and memory_manage/test.c, a test program.
pub mod Common
pub mod Peripheral
pub mod Port
pub mod Ring
pub mod Ticks
pub mod Timer
pub mod Thread
pub mod Queue
pub mod Area
pub mod Block
pub mod Cache
pub mod Bus
pub mod Device
pub mod Dma
pub mod Flash
pub mod FlashF4
pub mod Mpu
pub mod System
pub mod Uart
pub mod UartF4
