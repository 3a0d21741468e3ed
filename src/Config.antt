-- ===== src/Config.antt =====
-- c-performance/src/config_parser.c and include/config_parser.h: the configuration, its defaults
-- and its validation, the channel that it stands for, and the command lines of both programs.
pub mod Number
pub mod Getopt
pub mod Settings
pub mod Parse
pub mod Usage
mod Tests
