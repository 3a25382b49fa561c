-- ===== src/Mount/OnClient.antt =====
-- The client of internal/clientcore as the client of a mount.
use net_drive.Client.Wire.{Client, CallError}
use net_drive.Client.Calls.Defs.{Services}
use net_drive.Client.Calls.Names
use net_drive.Client.Calls.Files
use net_drive.Mount.Defs.{ProtocolClient}

unfoldable pub on_client : {N : Type 0} → Services N → ProtocolClient (Client N) CallError
on_client v = record {
  lookup = Names.lookup v;
  get_attr = Names.get_attr v;
  open_dir = Names.open_dir v;
  read_dir = Names.read_dir v;
  close_dir = Names.close_dir v;
  open_read = Files.open_read v;
  read = Files.read v;
  close_handle = Files.close_handle v;
}
