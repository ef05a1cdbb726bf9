-- ===== src/Flash.antt =====
-- flash/source/flash.c: the SPI flash of the target, through the target's SPI controller.
-- `Flash.Spi` is the controller, `Flash.Chip` the commands of the flash chip.
pub mod Spi
pub mod Chip
