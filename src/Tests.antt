-- ===== src/Tests.antt =====
-- Runs of the models on small inputs, and the theorems at inputs that meet their hypotheses.
mod DiffTests
mod WorkersTests
mod ConflictTests
mod GraphTests
mod TextTests
mod OperationsTests
mod WorkingCopyTests
mod RefsTests
mod TransferTests
