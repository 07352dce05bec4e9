-- ===== src/Esp32.antt =====
-- The WiFi module and its client: Maixduino_esp32/main (the firmware's command handler) and
-- drivers/esp32 (the driver that sends the commands and reads the answers).
pub mod Commands
pub mod Net
pub mod Server
pub mod Sockets
pub mod Transfer
pub mod Wifi
pub mod Device
pub mod Handle
pub mod Quiet
pub mod Ends
pub mod Table
pub mod Dispatch
pub mod Run
pub mod Link
pub mod Client
pub mod Sock
pub mod Steps
pub mod Moved
pub mod Served
pub mod Session
pub mod Fetch
pub mod Connect
pub mod Open
pub mod Overrun
pub mod Demo
mod Tests
