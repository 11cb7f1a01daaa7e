-- ===== src/Transport/Error.antt =====
-- packages/transport/src/error.rs, with `UsbError` of packages/transport/src/connection/usb.rs.
use adb_daemon_rs.Base.{Bytes}

-- `TransferError` belongs to the `nusb` library; `fault` is the value that the daemon tests for.
pub data TransferError : Type 0 where
  fault other_transfer : TransferError

pub data UsbError : Type 0 where
  unsupported claim other_usb : UsbError
  transfer : TransferError → UsbError

-- A source that is neither a text nor an `Error` of this crate is `foreign`.
mutual
  pub data ErrorKind : Type 0 where
    invalid_data closed sign invalid_key delayed_ack_not_available other : ErrorKind
    usb : UsbError → ErrorKind
    transport_error : Error → ErrorKind
    msg : Bytes → ErrorKind

  pub data Error : Type 0 where
    error : ErrorKind → Source → Error

  pub data Source : Type 0 where
    no_source foreign : Source
    text : Bytes → Source
    caused_by : Error → Source

-- `impl From<ErrorKind> for Error`.
abbrev pub of_kind : ErrorKind → Error
of_kind kind = error kind no_source

-- `Error::new`.
abbrev pub new : ErrorKind → Source → Error
new kind source = error kind source

abbrev pub kind : Error → ErrorKind
kind (error k s) = k

-- `std::error::Error::source` for `Error`: a transport error shows the error that it wraps.
unfoldable pub source : Error → Source
source (error (transport_error e) s) = caused_by e
source (error invalid_data s) = s
source (error closed s) = s
source (error sign s) = s
source (error invalid_key s) = s
source (error delayed_ack_not_available s) = s
source (error other s) = s
source (error (usb u) s) = s
source (error (msg m) s) = s
