-- ===== src/Tests/Serving.antt =====
-- A file server that is started and whose child then ends.
use ii_server_host.Storage.Proofs.Children.{AllConfined, IsContained, step-IsContained}
use ii_server_host.Prelude.{refl, false, none, []}
use ii_server_host.Storage.Serving.{FileServer, start_server}
use ii_server_host.Storage.Proofs.Serving.{launched, reported, IsPaired, starts, step-IsPaired}
use ii_server_host.Tests.Bridging.{plain_files, plain_options, plain_server}

abbrev off : FileServer
off = record {
  backend = plain_options;
  process = false;
  error = [];
  stopping = false;
  signals = [];
  effects = [];
}

step-IsPaired_example : IsPaired (start_server plain_files (λ t. none) plain_server off).1
unfolding launched reported
step-IsPaired_example =
    step-IsPaired plain_files (λ t. none) {d = off} (starts plain_server) (record { paired = refl })

step-IsContained_example : IsContained (start_server plain_files (λ t. none) plain_server off).1
unfolding AllConfined
step-IsContained_example =
    step-IsContained plain_files (λ t. none) {d = off} (starts plain_server)
      (record { confined = tt })
