-- ===== src/Board.antt =====
-- The globals of cores/epoxy/Arduino.cpp that its functions share, as one record. `U` is the state
-- of the sketch, which only the sketch's own callbacks read and change.
pub mod Pins
pub mod Interrupts
pub mod Yield
pub mod Clock
use epoxy_duino.Base.{ℕ, Bool, true, false, List, Option, none, replicate}

-- `struct InterruptHandler`. A pointer is an option of the number that names what it points to.
pub record InterruptHandler : Type 0 where
  pub user_func : Option ℕ
  pub user_func_arg : Option ℕ
  pub arg : Option ℕ
  pub pin : ℕ
  pub mode : ℕ
  pub enabled : Bool
  pub last_pin_state : ℕ

-- `struct YieldServiceEntry`
pub record YieldServiceEntry : Type 0 where
  pub callback : Option ℕ
  pub context : Option ℕ

pub record Board (U : Type 0) : Type 0 where
  pub digital_read_pin_values : ℕ
  pub digital_write_pin_values : ℕ
  pub interrupt_handlers : List InterruptHandler
  pub interrupts_initialized : Bool
  pub yield_service_entries : List YieldServiceEntry
  pub in_pump : Bool
  pub epoxy_micros : ℕ
  pub epoxy_real_time : Bool
  pub epoxy_start_time : ℕ
  pub user : U

-- Zero-initialised storage, as the program starts.
abbrev pub zero_handler : InterruptHandler
zero_handler = record {
  user_func = none;
  user_func_arg = none;
  arg = none;
  pin = 0;
  mode = 0;
  enabled = false;
  last_pin_state = 0;
}

abbrev pub empty_entry : YieldServiceEntry
empty_entry = record { callback = none; context = none }

abbrev pub power_on : {U : Type 0} → U → Board U
power_on u = record {
  digital_read_pin_values = 0;
  digital_write_pin_values = 0;
  interrupt_handlers = replicate 32 zero_handler;
  interrupts_initialized = false;
  yield_service_entries = replicate 16 empty_entry;
  in_pump = false;
  epoxy_micros = 0;
  epoxy_real_time = true;
  epoxy_start_time = 0;
  user = u;
}
