-- ===== src/Schema/Enums.antt =====
-- The enums of prisma/schema.prisma, with the tests `=== Enum.VALUE` that the services make.
use Prim.Native.String.{String}
use mathlib.Core.Bool.{Bool, true, false}

pub data Role : Type 0 where
  super_admin admin employee driver : Role

abbrev pub is_super_admin : Role → Bool
is_super_admin super_admin = true
is_super_admin _ = false

abbrev pub is_admin : Role → Bool
is_admin admin = true
is_admin _ = false

abbrev pub is_driver : Role → Bool
is_driver driver = true
is_driver _ = false

abbrev pub role_eq : Role → Role → Bool
role_eq super_admin r = is_super_admin r
role_eq admin r = is_admin r
role_eq employee employee = true
role_eq employee _ = false
role_eq driver r = is_driver r

pub data ApprovalStatus : Type 0 where
  pending approved rejected suspended : ApprovalStatus

abbrev pub is_pending : ApprovalStatus → Bool
is_pending ApprovalStatus.pending = true
is_pending _ = false

abbrev pub is_approved : ApprovalStatus → Bool
is_approved approved = true
is_approved _ = false

abbrev pub is_rejected : ApprovalStatus → Bool
is_rejected rejected = true
is_rejected _ = false

abbrev pub is_suspended : ApprovalStatus → Bool
is_suspended suspended = true
is_suspended _ = false

abbrev pub approval_eq : ApprovalStatus → ApprovalStatus → Bool
approval_eq a ApprovalStatus.pending = is_pending a
approval_eq a ApprovalStatus.approved = is_approved a
approval_eq a ApprovalStatus.rejected = is_rejected a
approval_eq a ApprovalStatus.suspended = is_suspended a

pub data VehicleStatus : Type 0 where
  available on_trip maintenance inactive : VehicleStatus

abbrev pub is_available : VehicleStatus → Bool
is_available available = true
is_available _ = false

abbrev pub is_on_trip : VehicleStatus → Bool
is_on_trip on_trip = true
is_on_trip _ = false

abbrev pub is_maintenance : VehicleStatus → Bool
is_maintenance maintenance = true
is_maintenance _ = false

abbrev pub vehicle_status_name : VehicleStatus → String
vehicle_status_name available = "AVAILABLE"
vehicle_status_name on_trip = "ON_TRIP"
vehicle_status_name maintenance = "MAINTENANCE"
vehicle_status_name inactive = "INACTIVE"

pub data VehicleSourceType : Type 0 where
  owned contract : VehicleSourceType

pub data FuelType : Type 0 where
  petrol diesel cng electric hybrid : FuelType

pub data BookingStatus : Type 0 where
  pending confirmed completed cancelled : BookingStatus

abbrev pub booking_is_pending : BookingStatus → Bool
booking_is_pending BookingStatus.pending = true
booking_is_pending _ = false

abbrev pub booking_is_confirmed : BookingStatus → Bool
booking_is_confirmed BookingStatus.confirmed = true
booking_is_confirmed _ = false

abbrev pub booking_is_completed : BookingStatus → Bool
booking_is_completed BookingStatus.completed = true
booking_is_completed _ = false

abbrev pub booking_is_cancelled : BookingStatus → Bool
booking_is_cancelled BookingStatus.cancelled = true
booking_is_cancelled _ = false

abbrev pub booking_status_name : BookingStatus → String
booking_status_name BookingStatus.pending = "PENDING"
booking_status_name BookingStatus.confirmed = "CONFIRMED"
booking_status_name BookingStatus.completed = "COMPLETED"
booking_status_name BookingStatus.cancelled = "CANCELLED"

pub data ContractType : Type 0 where
  vehicle_source client : ContractType

abbrev pub is_vehicle_source : ContractType → Bool
is_vehicle_source vehicle_source = true
is_vehicle_source client = false

pub data WorkshopJobStatus : Type 0 where
  open_ in_progress completed cancelled : WorkshopJobStatus

abbrev pub job_is_completed : WorkshopJobStatus → Bool
job_is_completed WorkshopJobStatus.completed = true
job_is_completed _ = false

abbrev pub job_status_eq : WorkshopJobStatus → WorkshopJobStatus → Bool
job_status_eq WorkshopJobStatus.open_ WorkshopJobStatus.open_ = true
job_status_eq WorkshopJobStatus.in_progress WorkshopJobStatus.in_progress = true
job_status_eq WorkshopJobStatus.completed WorkshopJobStatus.completed = true
job_status_eq WorkshopJobStatus.cancelled WorkshopJobStatus.cancelled = true
job_status_eq _ _ = false

abbrev pub vehicle_status_eq : VehicleStatus → VehicleStatus → Bool
vehicle_status_eq VehicleStatus.available VehicleStatus.available = true
vehicle_status_eq VehicleStatus.on_trip VehicleStatus.on_trip = true
vehicle_status_eq VehicleStatus.maintenance VehicleStatus.maintenance = true
vehicle_status_eq VehicleStatus.inactive VehicleStatus.inactive = true
vehicle_status_eq _ _ = false

abbrev pub is_contract : VehicleSourceType → Bool
is_contract VehicleSourceType.owned = false
is_contract VehicleSourceType.contract = true

abbrev pub contract_type_eq : ContractType → ContractType → Bool
contract_type_eq ContractType.vehicle_source ContractType.vehicle_source = true
contract_type_eq ContractType.client ContractType.client = true
contract_type_eq _ _ = false

-- `MANAGEABLE_ROLES` of users.service.ts.
abbrev pub is_manageable : Role → Bool
is_manageable Role.driver = true
is_manageable Role.employee = true
is_manageable _ = false

pub data AlertStatus : Type 0 where
  unread read dismissed : AlertStatus

abbrev pub alert_status_eq : AlertStatus → AlertStatus → Bool
alert_status_eq AlertStatus.unread AlertStatus.unread = true
alert_status_eq AlertStatus.read AlertStatus.read = true
alert_status_eq AlertStatus.dismissed AlertStatus.dismissed = true
alert_status_eq _ _ = false

abbrev pub is_inactive : VehicleStatus → Bool
is_inactive VehicleStatus.inactive = true
is_inactive _ = false
