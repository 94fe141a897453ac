-- ===== src/Plc/Tests.antt =====
-- A frame of 60 bytes that is sent with the marking byte.
use xyz.Prelude.{◌-◌, ◌^◌}
use xyz.Memory.{Memory, write_word, copy}
use xyz.Plc.{Buffer, Move, Decompress}

abbrev zeros : Memory
zeros i = 0

-- Length 46 in the IP header, protocol 6, a TCP header of 20 bytes.
abbrev frame : Buffer
frame = record {
  bytes = write_word (write_word (write_word zeros 16 46) 22 0x4006) 46 0x5000;
  len = 60;
}

abbrev overlapping : Move
overlapping m to from n = copy m to m from n

-- A device that fails with the status -1.
abbrev failing : Decompress
failing m offset b = (2 ^ 32 - 1, b)
