-- ===== src/Tests/TarRuns.antt =====
-- The tar reader of src/fs/ustar.cpp on a disc of zeroes.
use cxx_kernel.Base.{[], some, true, Ensures, arith, replicate}
use cxx_kernel.Ustar.{Disc, Iterator}
use cxx_kernel.Ustar.Window.{read-Within, Within}
use cxx_kernel.Ustar.Reading.{read}

abbrev disc : Disc
disc = record { disc_size = 4096; sector_size = 256; read_sector = λ pos. some (replicate 256 0) }

abbrev iterator : Iterator
iterator = record {
  ok = true;
  block = 0;
  index = 0;
  data_block = 1;
  data_index = 0;
  size = 10;
  header = [];
  content = [];
}

read-Within_example : Ensures (read 5 disc 4 iterator) (Within 4 iterator [])
read-Within_example = read-Within 5 disc 4 iterator (omega arith) (omega arith) (omega arith)
