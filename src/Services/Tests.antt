-- ===== src/Services/Tests.antt =====
-- A host with numbers of its own, and the theorems on it.
use cubesat_space_protocol.Base.{
  ◌≡◌, ◌↔◌, ◌∷◌, none, some, replicate, leb, true, false, refl, arith,
}
use cubesat_space_protocol.Header.{Packet}
use cubesat_space_protocol.Io.Calls.{Waits}
use cubesat_space_protocol.Io.Samples.{station, some_conn}
use cubesat_space_protocol.Services.{
  Host, reset, reboot, uptime, buf_free, memfree, ping, port_of, service_handler, serve,
}
use cubesat_space_protocol.Services.Answers.{ReadAs, Answered, Magic, serve-ReadAs, serve-reset_iff}
use cubesat_space_protocol.Services.Handled.{Ends, service_handler-Ends}
use cubesat_space_protocol.Services.Client.{ping_request, is_echo}
use cubesat_space_protocol.Services.Client.Echo.{is_echo-ping_request}

abbrev host : Host
host = record {
  freeram = 5000000000;
  mem_unit = 1;
  free_buffers = 9;
  seconds = 4000000000;
  has_reset = true;
}

abbrev some_packet : Packet
some_packet = record {
  quarantine = 0;
  timestamp = 0;
  length = 4;
  id = record { pri = 2; src = 10; dst = 5; dport = 4; sport = 33; flags = 0 };
  contents = 0x80 ∷ 0x07 ∷ 0x80 ∷ 0x07 ∷ replicate 300 0;
}

serve-ReadAs_example :
    Answered (ReadAs (some 4000000000)) (serve host uptime some_packet)
    × Answered (ReadAs (some 9)) (serve host buf_free some_packet)
    × Answered (ReadAs none) (serve host memfree some_packet)
serve-ReadAs_example = serve-ReadAs host some_packet (omega arith)

serve-reset_iff_example : (serve host reboot some_packet ≡ reset) ↔ Magic host reboot some_packet
serve-reset_iff_example =
    serve-reset_iff host reboot some_packet 0x80 0x07 0x80 0x07 refl (omega arith) (omega arith)
      (omega arith) (omega arith)

is_echo-ping_request_example :
    Answered (λ q. is_echo q 256 ≡ leb 256 256) (serve host ping (ping_request some_packet 256))
is_echo-ping_request_example = is_echo-ping_request host some_packet 256 (omega arith)

-- No other task does anything.
abbrev idle : Waits
idle = record { tx_wait = λ w. (false, w); rx_event = λ s. s }

service_handler-Ends_example :
    Ends idle station some_conn 7
      (serve host (port_of 33) (station.endpoint.mem 7))
      (service_handler host idle station some_conn 7)
service_handler-Ends_example = service_handler-Ends host idle station some_conn 7
