-- ===== src/Tests.antt =====
-- Runs of the modelled code at small inputs, and the theorems at inputs that meet their hypotheses.
mod Filesystem
mod Terminal
mod Keyboard
mod Disk
mod Reboot
mod Durable
mod Ata
mod Shell
mod Selector
mod Enter
mod Session
mod Kernel
