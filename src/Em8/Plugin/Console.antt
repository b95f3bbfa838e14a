-- ===== src/Em8/Plugin/Console.antt =====
-- em8/src/plugin_em8.cpp: the calls that give the console's input to the UART.
use emfe_plugins.Base.{ℕ, List, [], ◌∷◌, u8}
use emfe_plugins.Em8.Uart
use emfe_plugins.Em8.Uart.{Uart}
use emfe_plugins.Em8.Plugin.Instance.{Instance, Result}

with_uart : Uart → Instance → Instance
with_uart u i = record i { cpu = record i.cpu { memory = record i.cpu.memory { uart = u } } }

unfoldable pub send_char : ℕ → Instance → Result × Instance
unfolding with_uart
send_char ch i = (Result.ok, with_uart (Uart.receive_char (u8 ch) i.cpu.memory.uart) i)

-- a string is the list of its characters before the NUL
unfoldable pub send_string : List ℕ → Instance → Result × Instance
unfolding send_char
send_string [] i = (Result.ok, i)
send_string (ch ∷ str) i = send_string str (send_char ch i).1
