-- ===== src/Examples/Net.antt =====
-- Runs of the laws of a connection (src/net/Connection.cpp).
use distributed_in_memory_ke.Prelude.{refl, codes, length}
use distributed_in_memory_ke.Net.Connection.{write_bytes}
use distributed_in_memory_ke.Net.Writing.{IsWritten, write_bytes-IsWritten}
use distributed_in_memory_ke.Examples.{all_at_once, connection}

write_bytes-IsWritten_example :
    IsWritten (length (codes "+OK")) (write_bytes all_at_once connection (codes "+OK"))
write_bytes-IsWritten_example = write_bytes-IsWritten all_at_once connection (codes "+OK") refl
