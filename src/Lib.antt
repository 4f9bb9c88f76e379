-- ===== src/Lib.antt =====
-- The flight software of the PAN satellites: its decisions, modelled and proved.
--
-- In each control cycle of 170 ms the main control loop runs the tasks of src/fsw/FCCode one after
-- the other. They share the fields of a registry. The mission manager moves the satellite from
-- deployment to docking; before it does, the main fault handler runs a list of fault handlers that
-- may recommend standby or safe hold. The propulsion controller pressurizes, fires and vents the
-- two tanks, the radio's manager runs the commands of the modem, and the handlers of the radio, the
-- GPS receiver and the propulsion watch over them. Faults are debounced flags that the ground can
-- override. The attitude control system's commander chooses commands by its state, the box
-- controller sends them over I2C to a second computer, which drives wheels and magnetic torque
-- rods, and the box monitor reads that computer's registers back. The ground's packets set fields
-- through the bit stream and the serializers, and the downlink producer puts fields and events into
-- frames.
--
-- Files and sources:
--   Base         Boolean tests, lists and 32-bit arithmetic that the others share
--   Modes        the enumerations src/fsw/FCCode/*.enum
--   Floats       what the code does with floating-point numbers, as a record of operations
--   Fault        src/common/Fault.cpp: signal, unsignal, evaluate, is_faulted, process_commands
--   Propulsion   src/fsw/FCCode/Drivers/PropulsionSystem.cpp: the valves and the firing interrupt
--   PropController
--                src/fsw/FCCode/PropController.cpp: State holds the fields, Guards `can_enter`, Cycle
--                ActionCycleOpenClose with its two subclasses, Evaluate `enter` and `evaluate`,
--                Execute the control cycle
--   FaultHandlers
--                Simple, Main, Quake, Piksi and Propulsion: SimpleFaultHandler.cpp,
--                MainFaultHandler.cpp, QuakeFaultHandler.cpp, PiksiFaultHandler.cpp and
--                PropFaultHandler.cpp of src/fsw/FCCode
--   MissionManager
--                src/fsw/FCCode/MissionManager.cpp: State holds the fields and setters, Execute the
--                dispatch functions
--   QuakeManager src/fsw/FCCode/QuakeControlTask.cpp (ControlTask) and QuakeManager.cpp (Manager)
--   Devices      src/fsw/FCCode/DCDCController.cpp with Drivers/DCDC.cpp, PiksiControlTask.cpp and
--                GomspaceController.cpp
--   Docking      src/fsw/FCCode/DockingController.cpp with Drivers/DockingSystem.cpp
--   Codec        Memory and Bitstream src/common/bitstream.cpp, BitArray src/common/fixed_array.hpp,
--                Integer the serializer of unsigned integers in src/common/SerializerTypes.inl; Reading,
--                Sequence, Whole, Bits, Editing and RoundTrip are about the stream
--   Uplink       src/fsw/FCCode/UplinkCommon.cpp and UplinkConsumer.cpp
--   Downlink     src/fsw/FCCode/DownlinkProducer.cpp: the frame, and in Flows the flows and
--                the announced size
--   Events       src/common/Event.cpp and EventStorage.cpp
--   Schedule     the waits and the tasks' times in src/fsw/FCCode/TimedControlTask.hpp,
--                ClockManager.cpp and MainControlLoop.cpp
--   Eeprom       src/fsw/FCCode/EEPROMControllerCommon.cpp and EEPROMControllerTeensy.cpp; Fields the
--                saved fields of src/common/StateFieldTypes.inl and their registration; the memory
--                is a parameter, of which the laws say that a byte written is read back
--   Adcs         the attitude control system from the fields of the flight computer to the actuators of
--                the ADCS computer. Of src/fsw/FCCode: Commander ADCSCommander.cpp, Controller
--                ADCSBoxController.cpp, Monitor ADCSBoxMonitor.cpp, Driver and Readout
--                Drivers/ADCS.cpp. Of src/adcs: Convert utl/convert.inl and constants.hpp, Registers
--                state.hpp, Receive and Request state_controller.cpp, Loop `update_mtr` and
--                `update_rwa` of main.cpp with interrupts, Havt `update_havt` with havt.cpp,
--                SunSensors `update_ssa` with ssa.cpp, Imu `update_gyr` of imu.cpp, Rods mtr.cpp,
--                Wheels rwa.cpp, with the drivers in dev. Protocol, Pipeline and the folders below
--                put them together
--   Examples     tests, and the theorems at concrete inputs
--
-- A class is a record of its fields together with the registry's fields that it reads or writes,
-- and a method is a function on it. `control_cycle_count` is an argument. The other tasks' code
-- between two cycles is free to change what it can; where a theorem runs several cycles in a row it
-- says what stays. The mission manager takes the main fault handler as a function, as it holds a
-- pointer to it.
--
-- What the models assume: the flight build, without UNIT_TEST, DESKTOP, SPEEDUP and QFH_SPEEDUP;
-- `unsigned int` and `size_t` of 32 bits, with wrap-around where a value can wrap; a pin that was
-- written reads as written, and whether the propulsion is powered does not change within a cycle;
-- the statuses of the modem are not negative. Sensors, the modem's and the receiver's answers are
-- arguments. An interrupt does not fall between two statements of a control cycle of the flight
-- computer; in the loop of the ADCS computer, messages may come in between any two uses of the
-- registers. The bus between the two delivers whole messages in their order, and a read of an empty
-- buffer gives a byte that is a parameter. Most loops are structural recursion over the valves, the
-- list of machines or a number of cycles. Loops that count up run on a number of rounds: 32 or 64
-- for the bits of an integer, and the bits of the packet for the two loops of the uplink, each
-- round of which takes bits. Buffers are shorter than 2^28 bytes, so that a bit's place fits an
-- `int`; memory is a function of the address, so that a write outside of a buffer is a write like
-- any other. The one loop that does not end, which the kill switch starts, is the result `none`; a
-- read outside of the writable fields is one too.
--
-- Not modelled: constructors beyond the fault object's and the tanks', the drivers' serial and I2C
-- traffic, guidance and estimation, which a submodule computes, of the ADCS computer the setup, the
-- magnetometers, the traffic with single chips and the linear algebra library, whose products and
-- solution are parameters, the serializers of floating-point numbers, vectors and quaternions,
-- which round as the machine does, the desktop's file in place of the EEPROM, how long the
-- tasks take, and the ground's programs.
pub mod Base
pub mod Modes
pub mod Floats
pub mod Fault
pub mod Propulsion
pub mod PropController
pub mod FaultHandlers
pub mod MissionManager
pub mod QuakeManager
pub mod Devices
pub mod Codec
pub mod Uplink
pub mod Docking
pub mod Downlink
pub mod Events
pub mod Eeprom
pub mod Schedule
pub mod Adcs
pub mod Examples
