-- ===== src/Tests/Transport.antt =====
-- A controller that obeys the laws of Spi/Laws, and transactions over it.
use lib_tpm.Base.{◌<◌, ◌≡◌, refl, true, false, [], replicate, length-replicate, arith}
use lib_tpm.Base.Int.{pos}
use lib_tpm.Outcome.Spec.{Post}
use lib_tpm.Endian.{little_endian}
use lib_tpm.Platform.{Platform, Link, caller_timer}
use lib_tpm.Bus.Laws.{Safe}
use lib_tpm.Spi.{tpm_access_read, tpm2_fifo_io}
use lib_tpm.Spi.Laws.{Phase, free, taken, selected, SpiLaws, InPhase}
use lib_tpm.Registers.{tpm_chip_data}
use lib_tpm.Command.Transfer.{tpm_interface_init}
use lib_tpm.Command.Transfer.Init.{opened, Acquired, tpm_interface_init-Acquired}
use lib_tpm.Spi.Safety.{ReadFull, tpm2_fifo_io-Safe}

-- The state is the phase; every byte received is 1, and every timer has run out.
abbrev ready_platform : Platform Phase
ready_platform = record {
  host = little_endian;
  spi = record {
    get_access = λ d. (pos 0, taken);
    release_access = λ d. free;
    start = λ d. selected;
    stop = λ d. taken;
    xfer = λ len data_out wanted d. (pos 0, replicate len 1, d);
  };
  timer = record { timeout_init_us = λ usec d. (0, d); timeout_elapsed = λ cnt d. (true, d) };
  has_lib_timer = false;
  clock_gettime = λ d. (0, 0, d);
}

no_refusal : false ≡ true → taken ≡ free
no_refusal e = absurd cc

no_tick : true ≡ false → 0 < 0
no_tick e = absurd cc

abbrev ready_laws : SpiLaws ready_platform 1
ready_laws = record {
  phase = λ d. d;
  ticks = λ cnt d. 0;
  get_access_taken = λ d h good. refl;
  get_access_refused = λ d h bad. no_refusal bad;
  start_selects = λ d h. refl;
  stop_deselects = λ d h. refl;
  release_frees = λ d h. refl;
  xfer_stays = λ len data_out wanted d h. h;
  xfer_fills = λ len data_out wanted d h asked good. length-replicate len 1;
  get_access_ticks = λ cnt d. omega arith;
  start_ticks = λ cnt d. omega arith;
  stop_ticks = λ cnt d. omega arith;
  release_ticks = λ cnt d. omega arith;
  xfer_ticks = λ cnt len data_out wanted d. omega arith;
  timer_phase = λ usec d. refl;
  timer_starts = λ usec d. omega arith;
  elapsed_phase = λ cnt d. refl;
  elapsed_ticks = λ cnt d e. no_tick e;
}

abbrev open_link : Link Phase
open_link = record {
  dev = free;
  tpm_last_transport_error = pos 0;
  tpm_spidev = true;
  interface = true;
  tpm_timeout_ops = caller_timer;
}

tpm2_fifo_io-Safe_example :
    Post
      (λ din w'. InPhase ready_laws free w' × ReadFull tpm_access_read 4 din)
      (Safe (InPhase ready_laws free))
      (tpm2_fifo_io ready_platform 0xf00 tpm_access_read 4 [] open_link)
tpm2_fifo_io-Safe_example =
    tpm2_fifo_io-Safe ready_laws 0xf00 tpm_access_read 4 [] open_link (refl, (refl, refl))

tpm_interface_init-Acquired_example :
    Acquired ready_laws tpm_chip_data 0
      (opened ready_laws tpm_chip_data 0 open_link)
      (tpm_interface_init ready_platform 1 true true tpm_chip_data 0 open_link)
tpm_interface_init-Acquired_example =
    tpm_interface_init-Acquired ready_laws tpm_chip_data 0 open_link refl
