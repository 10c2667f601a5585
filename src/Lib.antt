-- ===== src/Lib.antt =====
-- SzymOS: a verification library for the kernel in kernel/ and include/, a hobby operating system
-- for the 32-bit x86 with a text terminal, a polled keyboard, an ATA disk and a small file system.
--
-- The parts and how they interact. `fs_init` (kernel/filesystem.c) sets up the table of files and
-- loads it from the disk that kernel/ata.c has selected. Clients create, read, delete and list files
-- through it; each change is saved at once, sector by sector, through the ports of the drive. All
-- parts print through kernel/terminal.c, which draws on the text memory of the VGA and moves its
-- cursor through ports. kernel/disk_selector.c lets the user choose among the drives that kernel/ata.c
-- has found, and hands the choice to the file system. kernel/keyboard.c polls the keyboard controller and turns scancodes into
-- characters; kernel/shell.c makes lines of them and runs the commands on files. `kernel_main` in
-- kernel/kernel.c starts them one after the other; the string functions that all use stand there too.
--
-- What models what:
--   Prelude       shared names; C arrays as lists (Lists) or as functions from an index (Bytes), `int`
--                 (Int), machine words with their wrap-around (Words), Boolean tests (Tests), what stands at
--                 an index (Index)
--   CString       strlen, strcmp, strncmp of kernel/kernel.c. A string is the list of the bytes from
--                 the pointer to the end of its object; `none` is a read past that object
--   Ports         the four instructions of kernel/io.h. What is behind the ports is no code of the
--                 repository: a type of device states and functions on it, a parameter everywhere
--   Console       the calls that other parts make of kernel/terminal.h, as values, and its colours
--   System        the state that the handlers pass on: devices, calls made, ATA and file system
--   Ata           kernel/ata.c: State its variables, Drives ata_init and the queries, Wait the waiting
--                 loops, Identify ata_identify and ata_detect_drives, Print ata_print_drives, Select
--                 ata_select_device and ata_select_drive, Transfer ata_read_sector and
--                 ata_write_sector (Wait, Sector and RoundTrip on a drive); Detect and Selected what the
--                 others leave. Disk is
--                 no code of the repository: the law of a drive behind the ports of its channel, for
--                 28-bit PIO transfers of one sector, which a theorem takes as a parameter
--   Filesystem    kernel/filesystem.c and kernel/filesystem.h
--     State       the constants, `file_entry_t`, `filesystem_header_t`, the static variables
--     Files       fs_find_free_slot, fs_find_file, and the changes of the table in memory
--     Sector      fs_read_sector_direct and fs_write_sector_direct, port access by port access; Wait,
--                 Words and Transfer what they do to a drive that keeps the law of Disk
--     Layout      the bytes of `fs_header` and of the entries in it, as the i386 ABI lays them
--                 out: what the source copies to and from the sectors without a conversion
--     Persist     fs_save_to_disk, fs_load_from_disk, fs_init; Save, Behind, Copy and Load what such a
--                 drive
--                 holds after a save, and what is loaded from it; Bytes the table as bytes
--     Ops         fs_create_file, fs_delete_file, fs_read_file, fs_file_exists, fs_list_files,
--                 fs_set_drive_info
--     Directory   the specification: what content is under a name; the invariant of the table
--     Refine      the operations against the directory, and in Session any sequence of calls
--                 against the list of the files; LongName, Listing, Reboot and RamOnly further cases;
--                 Durable the drive in step with the files behind every call, from
--                 a drive of zeroes on
--   Terminal      kernel/terminal.c: Screen the state and all that draws, Printf terminal_printf (Numeral what its
--                 digits stand for),
--                 Replay the calls of Console on the screen
--   Keyboard      kernel/keyboard.c: the tables, one scancode (on_scancode), keyboard_init and
--                 keyboard_getchar; Stream and Wait what a stream of scancodes types, Layout a US keyboard, Queued a
--                 user whose keys the controller holds
--   Selector      kernel/disk_selector.c and its copy kernel/io.c; Mount what a choice hands over to the
--                 file system, Typing and Dialogue what a user types at the menu
--   Memory, Cpu   kernel/memory.c, kernel/cpu.c; what the processor answers is a parameter
--   Serial        kernel/serial.h
--   Kernel        kernel_panic of kernel/kernel.c; Main kernel_main, Drivers, Readme, Files and Session
--                 its stages
--   Shell         kernel/shell.c: Text how a command is walked over, Line the line editor of shell_run,
--                 Files cmd_ls, cmd_cat, cmd_write and cmd_rm, Calc cmd_calc, Dispatch
--                 shell_execute_command, Run shell_init and shell_run, Screens what is printed without
--                 looking at anything; Enter what a typed line does, Stream the loop on the scancodes of
--                 a text, Session whole sessions against the list of the files
--   Tests         runs at small inputs
--
-- An `int` result is a `ℤ`; a `char` is its byte; `fs_data` and the text memory are functions from an
-- index to a value. A function of C whose loops and branches are named apart here is one definition
-- with helpers, and each helper names the loop or the branch that it is.
--
-- Bounds and fuel. The waiting loops of a drive run as long as in the source: at most 100000 rounds,
-- 10000 for an identification. The digit loops of terminal_printf have a fuel of 32, and an `unsigned
-- int` has at most 10 digits. The loops of keyboard_getchar and keyboard_init run as long as the
-- controller says; their fuel is the number of polls, with `none` when it is used up; one poll more
-- than there are scancodes held is enough for a character that they type. The loops that wait for the
-- user or for the serial port have no bound in the source: those of the disk selector and of shell_run
-- are given a number of characters and of polls for each; shell_run then gives the shell that waits
-- for the next character, and `none` when the polls are used up. Those of the serial port and the one
-- in front of a reboot are given their rounds by the surroundings. Outside `some` there is nothing to
-- trust: it stands for a read past the end of a string, of a table or of `fs_data`, for a write outside
-- the buffer of the command, and in cmd_calc also for
-- the exception of the one division that has no result.
--
-- `behind`, an argument of fs_save_to_disk and of what calls it, is the memory behind `fs_header`: the
-- third sector of the header is copied from 120 bytes past its end.
--
-- `kernel_main` never returns: its model gives the first screen, and the shell that waits for a
-- character behind those that it is given, or the machine that has been halted.
-- The clearing of the screen at the start is done on the screen itself, what is printed later stands
-- in the list of the calls.
--
-- Not modelled: the boot code and the build files, which are no C. Of what is behind
-- the ports nothing is assumed, except for the keyboard controller and the drive, whose documented
-- behaviour is a hypothesis of the theorems that need it.
pub mod Prelude
pub mod CString
pub mod Console
pub mod Ports
pub mod Ata
pub mod Filesystem
pub mod System
pub mod Terminal
pub mod Keyboard
pub mod Selector
pub mod Memory
pub mod Cpu
pub mod Serial
pub mod Kernel
pub mod Shell
pub mod Tests
